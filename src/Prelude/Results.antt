-- ===== src/Prelude/Results.antt =====
-- The language's `Result<T, E>`, and chains with `?` as `do` blocks.
use mathlib.Core.Path.{◌≡◌, refl}
use mathlib.Core.Logic.{◌⊎◌, inl, inr}
use mathlib.Core.Bool.{Bool, true, false}
use mathlib.Core.Option.{Option, none, some}

pub data Result {ℓ} (E : Type 0) (A : Type ℓ) : Type ℓ where
  ok : A → Result E A
  err : E → Result E A

-- `if b { return Err(e); }`
abbrev pub refuse : {E : Type 0} → Bool → E → Result E (Unit {0})
refuse false failure = ok tt
refuse true failure = err failure

infixl 5 ◌>>=◌
abbrev pub ◌>>=◌ {κ ι} :
    {E : Type 0} {S : Type κ} {T : Type ι} → Result E S → (S → Result E T) → Result E T
err failure >>= next = err failure
ok value >>= next = next value

-- A check in front of what follows.
infixl 5 ◌>>◌
abbrev pub ◌>>◌ {κ} : {E : Type 0} {T : Type κ} → Result E (Unit {0}) → Result E T → Result E T
first >> second = first >>= λ checked. second

-- `o.ok_or(e)?`
abbrev pub ok_or {ℓ} : {E : Type 0} {A : Type ℓ} → Option A → E → Result E A
ok_or none e = err e
ok_or (some a) e = ok a

-- `r.ok()`
abbrev pub to_option {ℓ} : {E : Type 0} {A : Type ℓ} → Result E A → Option A
to_option (ok a) = some a
to_option (err e) = none

-- `r.map_err(|_| e)`
abbrev pub map_err {ℓ} : {E F : Type 0} {A : Type ℓ} → Result E A → F → Result F A
map_err (ok a) e = ok a
map_err (err _) e = err e

pub Result-cases {ℓ} :
    {E : Type 0} {A : Type ℓ} (r : Result E A) → ((a : A) × (r ≡ ok a)) ⊎ ((e : E) × (r ≡ err e))
Result-cases (ok a) = inl (a, refl)
Result-cases (err e) = inr (e, refl)

-- A chain that succeeds has a first part that does.
pub >>=-eq-ok {κ ι} :
    {E : Type 0} {S : Type κ} {T : Type ι} (first : Result E S) (next : S → Result E T) {t : T}
    → (first >>= next) ≡ ok t
    → (s : S) × (first ≡ ok s) × (next s ≡ ok t)
>>=-eq-ok (err failure) next done = cc
>>=-eq-ok (ok value) next done = (value, refl, done)
