-- ===== src/Prelude/Results.antt =====
-- A computation that may fail: a rejected request or a raised `ValueError`, with its text.
use mathlib.Core.Path.{◌≡◌, refl}
use mathlib.Core.Logic.{◌≢◌, ◌⊎◌, inl, inr}
use mathlib.Core.Bool.{Bool, true, false, not}
use paper_forecast_loop.Prelude.Tests.{if◌then◌else◌}
use mathlib.Core.Option.{Option, none, some}
use Prim.Native.String.{String}

pub data Result {ℓ} (A : Type ℓ) : Type ℓ where
  ok : A → Result A
  err : String → Result A

infixl 5 ◌>>=◌
abbrev pub ◌>>=◌ {ℓ κ} : {A : Type ℓ} {B : Type κ} → Result A → (A → Result B) → Result B
ok a >>= f = f a
err e >>= f = err e

pub Result-cases {ℓ} :
    {A : Type ℓ} (r : Result A) → ((e : String) × (r ≡ err e)) ⊎ ((a : A) × (r ≡ ok a))
Result-cases (err e) = inl (e, refl)
Result-cases (ok a) = inr (a, refl)

pub ok_injective {ℓ} : {A : Type ℓ} {a b : A} → ok a ≡ ok b → a ≡ b
ok_injective h = cc

-- What a guarded result tells.
pub guard_ok {ℓ} :
    {A : Type ℓ} (b : Bool) (why : String) (x y : A)
    → (if not b then err why else ok x) ≡ ok y
    → (b ≡ true) × (x ≡ y)
guard_ok true why x y h = (refl, ok_injective h)
guard_ok false why x y h = cc

-- Continuations that agree give one computation.
pub bind_congr {ℓ κ} :
    {A : Type ℓ} {B : Type κ} (r : Result A) (f g : A → Result B)
    → ((a : A) → f a ≡ g a)
    → (r >>= f) ≡ (r >>= g)
bind_congr (ok a) f g h = h a
bind_congr (err e) f g h = refl

pub bind_assoc {ℓ κ μ} :
    {A : Type ℓ} {B : Type κ} {C : Type μ} (r : Result A) (f : A → Result B) (g : B → Result C)
    → ((r >>= f) >>= g) ≡ (r >>= λ a. f a >>= g)
bind_assoc (ok a) f g = refl
bind_assoc (err e) f g = refl

-- What succeeded, succeeded in each of its parts.
pub bind_ok {ℓ κ} :
    {A : Type ℓ} {B : Type κ} (r : Result A) (f : A → Result B) (b : B)
    → (r >>= f) ≡ ok b
    → (a : A) × ((r ≡ ok a) × (f a ≡ ok b))
bind_ok (ok a) f b h = (a, (refl, h))
bind_ok (err e) f b h = cc

pub ok≢err {ℓ} : {A : Type ℓ} {a : A} {e : String} → ok a ≢ err e
ok≢err h = cc

-- A chain of guards that lets a value through.
pub unrefused {ℓ} :
    {A : Type ℓ} (b : Bool) (why : A) (rest : Option A)
    → (if b then some why else rest) ≡ none
    → (b ≡ false) × (rest ≡ none)
unrefused true why rest h = cc
unrefused false why rest h = (refl, h)

pub unraised {ℓ} :
    {A : Type ℓ} (b : Bool) (why : String) (rest : Result A) (a : A)
    → (if b then err why else rest) ≡ ok a
    → (b ≡ false) × (rest ≡ ok a)
unraised true why rest a h = cc
unraised false why rest a h = (refl, h)
