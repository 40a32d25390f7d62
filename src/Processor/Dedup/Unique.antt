-- ===== src/Processor/Dedup/Unique.antt =====
-- `n_unique` of a column, and columns whose values are all equal.
use agentic_data_engineering.Processor.Columns.{replicate}
use agentic_data_engineering.Processor.Dedup.{n_unique}
use agentic_data_engineering.Base.{
  ◌≤◌, ◌<◌, ◌≡◌, refl, inl, inr, Bool, true, false, not, ◌||◌, List, [], ◌∷◌, ◌++◌, arith, ltb,
  Bool-cases, length, exists,
}
use agentic_data_engineering.Base.Equality.{Eq, ◌==◌, nat_eq, string_eq, option_eq, beq-eq}

pub exists_mono {ℓ} :
    {A : Type ℓ} (p q : A → Bool) (xs : List A)
    → ((a : A) → p a ≡ true → q a ≡ true)
    → exists p xs ≡ true
    → exists q xs ≡ true
exists_mono p q [] f h = h
exists_mono p q (x ∷ xs) f h = ground (arith, f x, exists_mono p q xs f)

pub exists-append {ℓ} :
    {A : Type ℓ} (p : A → Bool) (xs ys : List A)
    → exists p (xs ++ ys) ≡ (exists p xs || exists p ys)
exists-append p [] ys = ground arith
exists-append p (x ∷ xs) ys = ground (arith, exists-append p xs ys)

module _ {A : Type 0} ⦃e : Eq A⦄ where
  -- some value of the column is not `h`
  abbrev pub differs : A → List A → Bool
  differs h hs = exists (λ k. not (k == h)) hs

  n_unique_pos : (p : A → Bool) (hs : List A) → exists p hs ≡ true → 0 < n_unique hs
  unfolding n_unique
  n_unique_pos p [] h = cc
  n_unique_pos p (x ∷ []) h = ground arith
  n_unique_pos p (x ∷ y ∷ hs) h = ground (arith, n_unique_pos (λ _. true) (y ∷ hs))

  pub eq-replicate : (h : A) (hs : List A) → differs h hs ≡ false → hs ≡ replicate (length hs) h
  eq-replicate h [] d = refl
  eq-replicate h (x ∷ hs) d = ground (arith, e.beq_iff x h, eq-replicate h hs)

  n_unique-le-one : (h : A) (hs : List A) → differs h hs ≡ false → n_unique hs ≤ 1
  unfolding n_unique
  n_unique-le-one h [] d = omega arith
  n_unique-le-one h (x ∷ []) d = ground arith
  n_unique-le-one h (x ∷ y ∷ hs) d =
      ground (arith, e.beq_iff x h, e.beq_iff y h, e.beq_iff y x, n_unique-le-one h (y ∷ hs))

  differs_of_mem :
      (h x : A) (hs : List A)
      → exists (λ k. k == x) hs ≡ true
      → (x == h) ≡ false
      → differs h hs ≡ true
  differs_of_mem h x hs m d =
      exists_mono (λ k. k == x) (λ k. not (k == h)) hs
        (λ k p. ground (arith, e.beq_iff k x, e.beq_iff x h, e.beq_iff k h)) m

  one-lt-n_unique :
      (h : A) (hs : List A) → differs h hs ≡ true → exists (λ k. k == h) hs ≡ true → 1 < n_unique hs
  unfolding n_unique
  one-lt-n_unique h [] d m = cc
  one-lt-n_unique h (x ∷ hs) d m = elim (Bool-cases (x == h)) [
    | inl p ↦
        (let q : x ≡ h = beq-eq x h p in
          ground (arith, one-lt-n_unique h hs, n_unique_pos (λ k. not (k == h)) hs))
    | inr p ↦
        ground (arith, one-lt-n_unique h hs, differs_of_mem h x hs, n_unique_pos (λ k. k == h) hs)
  ]

  -- For a value of the column: the column has two values just where one differs from it.
  pub n_unique-gt-one :
      (h : A) (hs : List A) → exists (λ k. k == h) hs ≡ true → ltb 1 (n_unique hs) ≡ differs h hs
  n_unique-gt-one h hs m = elim (Bool-cases (differs h hs)) [
    | inl d ↦ ground (arith, one-lt-n_unique h hs)
    | inr d ↦ ground (arith, n_unique-le-one h hs)
  ]
