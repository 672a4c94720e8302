-- ===== src/Link/Pending.antt =====
-- The table of requests that a link waits for: `emit_request` and `cancel_request` of
-- crates/reiny-link/src/link.rs keep at most one entry for an endpoint and a sequence number.
pub mod Asked
pub mod Answered
pub mod Requested
use reiny.Prelude.{
  ℕ, zero, suc, ◌+◌, ◌≤◌, ◌<◌, ◌≡◌, refl, ap, sym, ◌∙◌, arith, inl, inr, Bool, true, false,
  Bool-cases, ◌&&◌, ◌||◌, Option, none, some, List, [], ◌∷◌, ◌==◌, if◌then◌else◌, any, filled,
  is_full, fill_free, clear_first,
}
use reiny.Link.State.{Link}

abbrev pub same_request : ℕ → ℕ → ℕ × ℕ → Bool
same_request hash seq p = p.0 == hash && p.1 == seq

module _ {ℓ} {A : Type ℓ} (p : A → Bool) where
  abbrev pub count : List A → ℕ
  count [] = 0
  count (x ∷ xs) = (if p x then 1 else 0) + count xs

  pub count-none : (xs : List A) → any p xs ≡ false → count xs ≡ 0
  count-none [] h = refl
  count-none (x ∷ xs) h = by_head (p x) h (count-none xs)
    where
      by_head :
          (b : Bool)
          → (b || any p xs) ≡ false
          → (any p xs ≡ false → count xs ≡ 0)
          → (if b then 1 else 0) + count xs ≡ 0
      by_head true h later = cc
      by_head false h later = omega (arith, later h)

  pub count-some : (xs : List A) → any p xs ≡ true → 0 < count xs
  count-some [] h = cc
  count-some (x ∷ xs) h = by_head (p x) h (count-some xs)
    where
      by_head :
          (b : Bool)
          → (b || any p xs) ≡ true
          → (any p xs ≡ true → 0 < count xs)
          → 0 < (if b then 1 else 0) + count xs
      by_head true h later = omega arith
      by_head false h later = omega (arith, later h)

  pub any-of_count : (xs : List A) → count xs ≡ 0 → any p xs ≡ false
  any-of_count xs h = elim (Bool-cases (any p xs)) [
    | inl e ↦ absurd (omega (arith, count-some xs e))
    | inr e ↦ e
  ]

  pub count-fill_free :
      (a : A) (slots : List (Option A))
      → is_full slots ≡ false
      → count (filled (fill_free a slots)) ≡ (if p a then 1 else 0) + count (filled slots)
  count-fill_free a [] h = cc
  count-fill_free a (none ∷ slots) h = refl
  count-fill_free a (some b ∷ slots) h = omega (arith, count-fill_free a slots h)

  -- What passes is cleared once.
  pub count-clear_first :
      (slots : List (Option A))
      → any p (filled slots) ≡ true
      → suc (count (filled (clear_first p slots))) ≡ count (filled slots)
  count-clear_first [] h = cc
  count-clear_first (none ∷ slots) h = count-clear_first slots h
  count-clear_first (some b ∷ slots) h = by_head (p b) h (count-clear_first slots) refl
    where
      by_head :
          (c : Bool)
          → (c || any p (filled slots)) ≡ true
          → (any p (filled slots) ≡ true
              → suc (count (filled (clear_first p slots))) ≡ count (filled slots))
          → p b ≡ c
          → suc (
              count
                (filled (elim c [ true ↦ none ∷ slots | false ↦ some b ∷ clear_first p slots ])))
            ≡ (if c then 1 else 0) + count (filled slots)
      by_head true h later e = omega arith
      by_head false h later e = rw e (omega (arith, later h))

-- And nothing else comes up.
pub count-clear_first_le {ℓ} :
    {A : Type ℓ} (p q : A → Bool) (slots : List (Option A))
    → count q (filled (clear_first p slots)) ≤ count q (filled slots)
count-clear_first_le p q [] = omega arith
count-clear_first_le p q (none ∷ slots) = count-clear_first_le p q slots
count-clear_first_le p q (some b ∷ slots) = by_head (p b) (count-clear_first_le p q slots)
  where
    by_head :
        (c : Bool)
        → count q (filled (clear_first p slots)) ≤ count q (filled slots)
        → count q (filled (elim c [ true ↦ none ∷ slots | false ↦ some b ∷ clear_first p slots ]))
          ≤ (if q b then 1 else 0) + count q (filled slots)
    by_head true later = omega arith
    by_head false later = omega (arith, later)

-- And where the tests have nothing in common nothing of the other's is.
pub count-clear_first_other {ℓ} :
    {A : Type ℓ} (p q : A → Bool) (slots : List (Option A))
    → ((a : A) → p a ≡ true → q a ≡ false)
    → count q (filled (clear_first p slots)) ≡ count q (filled slots)
count-clear_first_other p q [] apart = refl
count-clear_first_other p q (none ∷ slots) apart = count-clear_first_other p q slots apart
count-clear_first_other p q (some b ∷ slots) apart =
    by_head (p b) refl (count-clear_first_other p q slots apart)
  where
    by_head :
        (c : Bool)
        → p b ≡ c
        → count q (filled (clear_first p slots)) ≡ count q (filled slots)
        → count q (filled (elim c [ true ↦ none ∷ slots | false ↦ some b ∷ clear_first p slots ]))
          ≡ (if q b then 1 else 0) + count q (filled slots)
    by_head true e later = let other = apart b e in rw other (omega arith)
    by_head false e later = omega (arith, later)

-- How many entries wait for the answer to one request.
abbrev pub waiting : Link → ℕ → ℕ → ℕ
waiting l hash seq = count (same_request hash seq) (filled l.pending)

-- No two entries wait for the same answer.
abbrev pub IsOnce : Link → Type 0
IsOnce l = (hash seq : ℕ) → waiting l hash seq ≤ 1
