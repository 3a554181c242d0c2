-- ===== src/Coding/Refinement.antt =====
-- A JSONL file implements a list of artifacts without repeated ids: appending a payload to the file
-- and loading it is appending the artifact to the list.
use paper_forecast_loop.Prelude.{
  ◌≡◌, refl, ap, sym, ◌∙◌, String, false, Option, none, some, List, [], ◌∷◌, ◌++◌, ◌==◌, Result, ok,
  err, ◌>>=◌, ok_injective, ok≢err, bind_ok, Bool-cases, subst, bind_assoc, inl, inr,
}
use mathlib.Core.List.{append_assoc}
use paper_forecast_loop.Runtime.{Runtime, text, Dict}
use paper_forecast_loop.Storage.Unique.{has_id, append_unique}
use paper_forecast_loop.Coding.{Codec, IsCodec, lookup}
use paper_forecast_loop.Coding.File.{append_unique_line, held_by, is_held, parsed, load_lines}

-- How one kind of artifact is coded, and what storing it relies on: the id is read from its key and
-- written under it, and the artifacts that can be coded are read back as they were.
pub record Coding (F A : Type 0) : Type 0 where
  pub to_dict : A → Dict F
  pub from_dict : Dict F → Result A
  pub id : A → String
  pub identity_key : String

pub record IsCoding {F A : Type 0} (coding : Coding F A) : Type 0 where
  pub id_read :
      (payload : Dict F) (x : A)
      → coding.from_dict payload ≡ ok x
      → lookup coding.identity_key payload ≡ some (text (coding.id x))
  pub id_written :
      (x : A) → lookup coding.identity_key (coding.to_dict x) ≡ some (text (coding.id x))

module _ {F Line A : Type 0} (rt : Runtime F) (codec : Codec F Line) (laws : IsCodec rt codec)
    (coding : Coding F A) (coded : IsCoding coding) where
  load_lines-append :
      (lines : List Line) (xs : List A) (payload : Dict F)
      → load_lines codec coding.from_dict lines ≡ ok xs
      → load_lines codec coding.from_dict (lines ++ codec.dumps payload ∷ [])
        ≡ (coding.from_dict payload >>= λ x. ok (xs ++ x ∷ []))
  unfolding load_lines
  load_lines-append [] xs payload e =
      subst
        (λ ys.
          load_lines codec coding.from_dict (codec.dumps payload ∷ [])
          ≡ (coding.from_dict payload >>= λ x. ok (ys ++ x ∷ [])))
        (ok_injective e)
        (rw (load_lines, laws.dumps_not_blank payload, laws.loads-dumps payload) refl)
  load_lines-append (line ∷ lines) xs payload e = elim (Bool-cases (codec.is_blank line)) [
    | inl blank ↦
        rw (load_lines, blank) (load_lines-append lines xs payload (rw (load_lines, blank) at e))
    | inr full ↦
        let (x, (read, rest)) =
          bind_ok (parsed codec coding.from_dict (codec.loads line)) _ _
            (rw (load_lines, full) at e) in
        let (ys, (loaded, all)) = bind_ok (load_lines codec coding.from_dict lines) _ _ rest in
        subst
          (λ zs.
            load_lines codec coding.from_dict (line ∷ (lines ++ codec.dumps payload ∷ []))
            ≡ (coding.from_dict payload >>= λ y. ok (zs ++ y ∷ [])))
          (ok_injective all)
          (rw (load_lines, full, read, load_lines-append lines ys payload loaded)
            (bind_assoc (coding.from_dict payload) _ _))
  ]

  held_by-read :
      (payload : Dict F) (k : String) (read : Option (Dict F)) (x : A)
      → lookup coding.identity_key payload ≡ some (text k)
      → parsed codec coding.from_dict read ≡ ok x
      → held_by codec coding.identity_key payload read ≡ (coding.id x == k)
  held_by-read payload k none x e p = absurd (ok≢err (sym p))
  held_by-read payload k (some existing) x e p = rw (e, coded.id_read existing x p) refl

  -- A line of the file has the payload's id exactly if an artifact of the list has it.
  is_held-has_id :
      (lines : List Line) (xs : List A) (payload : Dict F) (k : String)
      → lookup coding.identity_key payload ≡ some (text k)
      → load_lines codec coding.from_dict lines ≡ ok xs
      → is_held codec coding.identity_key payload lines ≡ has_id coding.id k xs
  unfolding load_lines
  is_held-has_id [] xs payload k h e =
      subst (λ ys. false ≡ has_id coding.id k ys) (ok_injective e) refl
  is_held-has_id (line ∷ lines) xs payload k h e = elim (Bool-cases (codec.is_blank line)) [
    | inl blank ↦ rw blank (is_held-has_id lines xs payload k h (rw (load_lines, blank) at e))
    | inr full ↦
        let (x, (read, rest)) =
          bind_ok (parsed codec coding.from_dict (codec.loads line)) _ _
            (rw (load_lines, full) at e) in
        let (ys, (loaded, all)) = bind_ok (load_lines codec coding.from_dict lines) _ _ rest in
        subst
          (λ zs. is_held codec coding.identity_key payload (line ∷ lines) ≡ has_id coding.id k zs)
          (ok_injective all)
          (rw
            (
              full,
              held_by-read payload k (codec.loads line) x h read,
              is_held-has_id lines ys payload k h loaded,
            )
            refl)
  ]

  -- Storing an artifact in a file that loads, and loading the file again, gives the list that
  -- `append_unique` on the loaded artifacts gives, if the artifact's dictionary is read back as the
  -- artifact: the file implements the list of the repository.
  pub append_unique_refines :
      (lines : List Line) (xs : List A) (x : A)
      → load_lines codec coding.from_dict lines ≡ ok xs
      → coding.from_dict (coding.to_dict x) ≡ ok x
      → load_lines codec coding.from_dict
          (append_unique_line codec lines (coding.to_dict x) coding.identity_key)
        ≡ ok (append_unique coding.id xs x)
  unfolding append_unique_line append_unique
  append_unique_refines lines xs x e back =
      let held = is_held-has_id lines xs (coding.to_dict x) (coding.id x) (coded.id_written x) e in
      elim (Bool-cases (has_id coding.id (coding.id x) xs)) [
        | inl old ↦ rw (append_unique_line, append_unique, held, old) e
        | inr new ↦
            rw (append_unique_line, append_unique, held, new)
              (load_lines-append lines xs (coding.to_dict x) e ∙ rw back refl)
      ]

  load_lines_poisoned :
      (lines later : List Line) (xs : List A) (payload : Dict F) (why : String)
      → load_lines codec coding.from_dict lines ≡ ok xs
      → coding.from_dict payload ≡ err why
      → load_lines codec coding.from_dict (lines ++ codec.dumps payload ∷ later) ≡ err why
  unfolding load_lines
  load_lines_poisoned [] later xs payload why e bad =
      rw (load_lines, laws.dumps_not_blank payload, laws.loads-dumps payload, bad) refl
  load_lines_poisoned (line ∷ lines) later xs payload why e bad =
      elim (Bool-cases (codec.is_blank line)) [
        | inl blank ↦
            rw (load_lines, blank)
              (load_lines_poisoned lines later xs payload why (rw (load_lines, blank) at e) bad)
        | inr full ↦
            let (x, (read, rest)) =
              bind_ok (parsed codec coding.from_dict (codec.loads line)) _ _
                (rw (load_lines, full) at e) in
            let (ys, (loaded, all)) = bind_ok (load_lines codec coding.from_dict lines) _ _ rest in
            rw (load_lines, full, read, load_lines_poisoned lines later ys payload why loaded bad)
              refl
      ]

  -- An artifact that is new to the file and is not read back makes every later load of the file
  -- raise, whatever is appended behind it.
  pub unreadable_poisons :
      (lines later : List Line) (xs : List A) (x : A) (why : String)
      → load_lines codec coding.from_dict lines ≡ ok xs
      → has_id coding.id (coding.id x) xs ≡ false
      → coding.from_dict (coding.to_dict x) ≡ err why
      → load_lines codec coding.from_dict
          (append_unique_line codec lines (coding.to_dict x) coding.identity_key ++ later)
        ≡ err why
  unfolding append_unique_line
  unreadable_poisons lines later xs x why e new back =
      let held = is_held-has_id lines xs (coding.to_dict x) (coding.id x) (coded.id_written x) e in
      rw (append_unique_line, held, new)
        (ap (load_lines codec coding.from_dict)
            (append_assoc lines (codec.dumps (coding.to_dict x) ∷ []) later)
          ∙ load_lines_poisoned lines later xs (coding.to_dict x) why e back)
