-- ===== src/Prelude/Loops.antt =====
-- `for` loops that return on the first error, and what it says of the items that none was returned.
use mathlib.Core.Path.{◌≡◌, refl, sym, ap, ◌∙◌}
use mathlib.Core.Logic.{◌↔◌, ◌≢◌}
use mathlib.Core.Option.{Option, none, some}
use mathlib.Core.List.{List, [], ◌∷◌, ◌++◌}
use mathlib.Core.Bool.{Bool, true, false, not, false≢true}
use reiny.Prelude.Lists.{All}
use reiny.Prelude.Results.{Result, ok, err, refuse, ok_or, ◌>>=◌, ◌>>◌}

module _ {E : Type 0} {A : Type 0} where
  abbrev pub for_each : (A → Result E (Unit {0})) → List A → Result E (Unit {0})
  for_each body [] = ok tt
  for_each body (x ∷ xs) = body x >> for_each body xs

  -- A loop that carries a state.
  abbrev pub run_each {ℓ} : {S : Type ℓ} → (S → A → Result E S) → S → List A → Result E S
  run_each body s [] = ok s
  run_each body s (x ∷ xs) = body s x >>= λ after. run_each body after xs

pub >>-eq-ok {κ} :
    {E : Type 0} {T : Type κ} (first : Result E (Unit {0})) (second : Result E T) {t : T}
    → (first >> second) ≡ ok t
    → (first ≡ ok tt) × (second ≡ ok t)
>>-eq-ok (err failure) second done = cc
>>-eq-ok (ok value) second done = (refl, done)

pub ok->> {κ} :
    {E : Type 0} {T : Type κ} (first : Result E (Unit {0})) (second : Result E T) {t : T}
    → first ≡ ok tt
    → second ≡ ok t
    → (first >> second) ≡ ok t
ok->> first second passed done = rw passed done

pub refuse-eq-ok :
    {E : Type 0} (b : Bool) (failure : E) {t : Unit {0}} → refuse b failure ≡ ok t → b ≡ false
refuse-eq-ok true failure done = cc
refuse-eq-ok false failure done = refl

module _ {E : Type 0} {P : Type 0} where
  -- `if !b { return Err(failure); }`
  pub require_iff : (b : Bool) (failure : E) → (b ≡ true) ↔ P → (refuse (not b) failure ≡ ok tt) ↔ P
  require_iff true failure means = (λ _. means.0 refl, λ _. refl)
  require_iff false failure means = (λ h. cc, λ p. absurd (false≢true (means.1 p)))

  -- `if b { return Err(failure); }`
  pub refuse_iff : (b : Bool) (failure : E) → (b ≡ false) ↔ P → (refuse b failure ≡ ok tt) ↔ P
  refuse_iff false failure means = (λ _. means.0 refl, λ _. refl)
  refuse_iff true failure means = (λ h. cc, λ p. let e = means.1 p in cc)

pub ok_iff {ℓ} :
    {E : Type 0} {T : Type ℓ} (a b : T) → (◌≡◌ {A = Result E T} (ok a) (ok b)) ↔ (b ≡ a)
ok_iff a b = (λ h. cc, λ e. ap ok (sym e))

-- What the first part and the rest accept, the whole accepts.
pub seq_iff {ℓ κ ι} :
    {E : Type 0} {P : Type κ} {Q : Type ι} {T : Type ℓ} {first : Result E (Unit {0})}
    {second : Result E T} {t : T}
    → (first ≡ ok tt) ↔ P
    → (second ≡ ok t) ↔ Q
    → ((first >> second) ≡ ok t) ↔ (P × Q)
seq_iff {first = first} {second = second} means after = (
  λ done. let both = >>-eq-ok first second done in (means.0 both.0, after.0 both.1),
  λ both. ok->> first second (means.1 both.0) (after.1 both.1),
)

module _ {E : Type 0} {A : Type 0} (body : A → Result E (Unit {0})) where
  -- A loop accepts what its body accepts of every item.
  pub for_each_iff :
      {P : A → Type 0} (xs : List A)
      → ((x : A) → (body x ≡ ok tt) ↔ P x)
      → (for_each body xs ≡ ok tt) ↔ All P xs
  for_each_iff [] means = (λ _. tt, λ _. refl)
  for_each_iff (x ∷ xs) means = seq_iff (means x) (for_each_iff xs means)

-- `o.ok_or(failure)?` in front of a check.
pub ok_or_iff {κ ι ℓ} :
    {E : Type 0} {S : Type κ} {P : S → Type ι} {T : Type ℓ} {t : T} (o : Option S) (failure : E)
    (next : S → Result E T)
    → ((s : S) → (next s ≡ ok t) ↔ P s)
    → ((ok_or o failure >>= next) ≡ ok t) ↔ ((s : S) × ((o ≡ some s) × P s))
ok_or_iff none failure next means = (λ h. cc, λ h. let e = h.1.0 in cc)
ok_or_iff (some s) failure next means = (
  λ h. (s, (refl, (means s).0 h)),
  λ h. let e = h.1.0 in let same : s ≡ h.0 = cc in rw same ((means h.0).1 h.1.1),
)

pub >>=_assoc {ℓ κ ι} :
    {E : Type 0} {R : Type ℓ} {S : Type κ} {T : Type ι} (r : Result E R) (f : R → Result E S)
    (g : S → Result E T)
    → (r >>= f >>= g) ≡ (r >>= λ a. f a >>= g)
>>=_assoc (err failure) f g = refl
>>=_assoc (ok a) f g = refl

pub >>=_cong {ℓ κ} :
    {E : Type 0} {S : Type ℓ} {T : Type κ} (r : Result E S) (f g : S → Result E T)
    → ((s : S) → f s ≡ g s)
    → (r >>= f) ≡ (r >>= g)
>>=_cong (err failure) f g same = refl
>>=_cong (ok s) f g same = same s

-- A loop over two lists in turn.
pub run_each-append {ℓ} :
    {E : Type 0} {A : Type 0} {S : Type ℓ} (body : S → A → Result E S) (s : S) (xs ys : List A)
    → run_each body s (xs ++ ys) ≡ (run_each body s xs >>= λ after. run_each body after ys)
run_each-append body s [] ys = refl
run_each-append body s (x ∷ xs) ys =
    >>=_cong (body s x) _ _ (λ after. run_each-append body after xs ys)
    ∙ sym (>>=_assoc (body s x) (λ after. run_each body after xs) (λ after. run_each body after ys))

-- An error that no part returns is not returned by the whole.
module _ {E : Type 0} {e : E} where
  pub refuse-ne-err : (b : Bool) (failure : E) → failure ≢ e → refuse b failure ≢ err e
  refuse-ne-err true failure differ = λ h. differ cc
  refuse-ne-err false failure differ = λ h. cc

  pub ok_or-ne-err {κ} :
      {S : Type κ} (o : Option S) (failure : E) → failure ≢ e → ok_or o failure ≢ err e
  ok_or-ne-err none failure differ = λ h. differ cc
  ok_or-ne-err (some s) failure differ = λ h. cc

  pub >>=-ne-err {κ ι} :
      {S : Type κ} {T : Type ι} (first : Result E S) {next : S → Result E T}
      → first ≢ err e
      → ((s : S) → first ≡ ok s → next s ≢ err e)
      → (first >>= next) ≢ err e
  >>=-ne-err (err failure) differ after = λ h. differ cc
  >>=-ne-err (ok value) differ after = after value refl

  pub >>-ne-err {κ} :
      {T : Type κ} (first : Result E (Unit {0})) (second : Result E T)
      → first ≢ err e
      → second ≢ err e
      → (first >> second) ≢ err e
  >>-ne-err first second differ after = >>=-ne-err first differ (λ _ _. after)

  pub ok-ne-err {κ} : {T : Type κ} (t : T) → ok t ≢ err e
  ok-ne-err t = λ h. cc

  pub ok_or_then-ne-err {κ ι} :
      {S : Type κ} {T : Type ι} (o : Option S) (failure : E) (next : S → Result E T)
      → failure ≢ e
      → ((s : S) → next s ≢ err e)
      → (ok_or o failure >>= next) ≢ err e
  ok_or_then-ne-err o failure next differ after =
      >>=-ne-err (ok_or o failure) (ok_or-ne-err o failure differ) (λ s _. after s)

  pub for_each-ne-err :
      {A : Type 0} (body : A → Result E (Unit {0})) (xs : List A)
      → All (λ x. body x ≢ err e) xs
      → for_each body xs ≢ err e
  for_each-ne-err body [] differ = λ h. cc
  for_each-ne-err body (x ∷ xs) differ =
      >>=-ne-err (body x) differ.0 (λ _ _. for_each-ne-err body xs differ.1)

  pub run_each-ne-err {ℓ} :
      {A : Type 0} {S : Type ℓ} (body : S → A → Result E S) (s : S) (xs : List A)
      → ((before : S) (x : A) → body before x ≢ err e)
      → run_each body s xs ≢ err e
  run_each-ne-err body s [] differ = λ h. cc
  run_each-ne-err body s (x ∷ xs) differ =
      >>=-ne-err (body s x) (differ s x) (λ after _. run_each-ne-err body after xs differ)

-- An error of the whole that is none of the first part comes from the rest.
pub >>=-eq-err {κ ι} :
    {E : Type 0} {S : Type κ} {T : Type ι} {e : E} (first : Result E S) (next : S → Result E T)
    → (first >>= next) ≡ err e
    → first ≢ err e
    → (s : S) × (first ≡ ok s) × (next s ≡ err e)
>>=-eq-err {e = e} (err failure) next failed differ =
    let same : failure ≡ e = cc in absurd (differ (ap err same))
>>=-eq-err (ok s) next failed differ = (s, refl, failed)

-- What a chain returns, by the way that it ends.
abbrev pub Ends {ℓ} : {E : Type 0} {S : Type ℓ} → (S → Type 0) → (E → Type 0) → Result E S → Type 0
Ends P Q (ok s) = P s
Ends P Q (err e) = Q e

-- A loop keeps what each round keeps, until one ends it.
module _ {E A S : Type 0} (P : S → Type 0) (Q : E → Type 0) (body : S → A → Result E S)
    (round : (before : S) (x : A) → P before → Ends P Q (body before x)) where
  pub run_each-Ends : (xs : List A) (s : S) → P s → Ends P Q (run_each body s xs)
  run_each-Ends [] s start = start
  run_each-Ends (x ∷ xs) s start = rest (body s x) (round s x start) (run_each-Ends xs)
    where
      rest :
          (r : Result E S)
          → Ends P Q r
          → ((after : S) → P after → Ends P Q (run_each body after xs))
          → Ends P Q (r >>= λ after. run_each body after xs)
      rest (err e) end later = end
      rest (ok after) next later = later after next
