-- ===== src/Coding/File.antt =====
-- storage.py: `_append`, `_append_unique` and `_load_lines` on a JSONL file, the list of its lines.
use paper_forecast_loop.Prelude.{
  String, Bool, false, ◌||◌, Option, none, some, List, [], ◌∷◌, ◌++◌, ◌==◌, if◌then◌else◌, Result,
  ok, err, ◌>>=◌,
}
use paper_forecast_loop.Runtime.{Json, text, Dict}
use paper_forecast_loop.Coding.{Codec, lookup}

module _ {F Line : Type 0} (codec : Codec F Line) where
  -- `existing.get(key) == payload.get(key)`, where the ids of artifacts are texts
  abbrev pub same_value : Option (Json F) → Option (Json F) → Bool
  same_value (some (text s)) (some (text t)) = s == t
  same_value _ _ = false

  abbrev pub held_by : String → Dict F → Option (Dict F) → Bool
  held_by identity_key payload none = false
  held_by identity_key payload (some existing) =
      same_value (lookup identity_key existing) (lookup identity_key payload)

  abbrev pub holds : String → Dict F → Line → Bool
  holds identity_key payload line =
      if codec.is_blank line then false else held_by identity_key payload (codec.loads line)

  abbrev pub append_line : List Line → Dict F → List Line
  append_line lines payload = lines ++ codec.dumps payload ∷ []

  abbrev pub is_held : String → Dict F → List Line → Bool
  is_held identity_key payload [] = false
  is_held identity_key payload (line ∷ lines) =
      holds identity_key payload line || is_held identity_key payload lines

  unfoldable pub append_unique_line : List Line → Dict F → String → List Line
  append_unique_line lines payload identity_key =
      if is_held identity_key payload lines then lines else append_line lines payload

  module _ {A : Type 0} (factory : Dict F → Result A) where
    abbrev pub parsed : Option (Dict F) → Result A
    parsed none = err "JSONDecodeError"
    parsed (some payload) = factory payload

    unfoldable pub load_lines : List Line → Result (List A)
    load_lines [] = ok []
    load_lines (line ∷ lines) =
        let rest = load_lines lines in
        if codec.is_blank line
        then rest
        else parsed (codec.loads line) >>= λ x. rest >>= λ xs. ok (x ∷ xs)
