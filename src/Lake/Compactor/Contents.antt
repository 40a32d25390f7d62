-- ===== src/Lake/Compactor/Contents.antt =====
-- The rows that a bucket holds, and what a request of the object store does to them.
use agentic_data_engineering.Lake.Storage.{is_distinct}
use agentic_data_engineering.Lake.Compactor.{Parquet}
use agentic_data_engineering.Base.{
  ℕ, ◌+◌, ◌≤◌, String, ◌≡◌, refl, sym, ap, inl, inr, Bool, true, false, Option, none, some, List,
  [], ◌∷◌, ◌++◌, arith, is_some, exists, count_if,
}
use agentic_data_engineering.Base.Equality.{
  ◌==◌, nat_eq, string_eq, option_eq, beq_refl, beq_sym, beq_cases,
}
use agentic_data_engineering.Base.Dict.{Dict, get, put, remove, get-put, get-remove}

module _ {Bytes : Type 0} (pq : Parquet Bytes) where
  open pq use {Row, Frame, rows, concat, read_parquet, write_parquet}

  abbrev frame_rows : Option Frame → List Row
  frame_rows none = []
  frame_rows (some frame) = rows frame

  -- The rows of a file, none where it is not one that polars reads.
  unfoldable pub file_rows : Bytes → List Row
  file_rows body = frame_rows (read_parquet body)

  unfoldable pub at_key : (Row → Bool) → Option Bytes → ℕ
  unfolding file_rows
  at_key p none = 0
  at_key p (some body) = count_if p (file_rows body)

  pub at_key-some :
      (p : Row → Bool) (body : Bytes) (frame : Frame)
      → read_parquet body ≡ some frame
      → at_key p (some body) ≡ count_if p (rows frame)
  unfolding at_key file_rows
  at_key-some p body frame h = ap (λ o. count_if p (frame_rows o)) h

  -- How many rows that pass a test the files hold.
  unfoldable pub held : (Row → Bool) → Dict String Bytes → ℕ
  unfolding file_rows
  held p [] = 0
  held p ((k, body) ∷ d) = count_if p (file_rows body) + held p d

  -- How many the files with the listed keys hold.
  unfoldable pub held_at : (Row → Bool) → List String → Dict String Bytes → ℕ
  unfolding at_key get
  held_at p [] d = 0
  held_at p (k ∷ ks) d = at_key p (get k d) + held_at p ks d

  -- How many a list of frames holds.
  unfoldable pub held_in : (Row → Bool) → List Frame → ℕ
  held_in p [] = 0
  held_in p (f ∷ fs) = count_if p (rows f) + held_in p fs

  pub held-put :
      (p : Row → Bool) (k : String) (body : Bytes) (d : Dict String Bytes)
      → get k d ≡ none
      → held p (put k body d) ≡ count_if p (file_rows body) + held p d
  unfolding held put get
  held-put p k body [] h = refl
  held-put p k body ((j, b) ∷ d) h = elim (beq_cases j k) [
    | inl e ↦ absurd (ground (arith, beq_refl k))
    | inr e ↦ ground (arith, held-put p k body d)
  ]

  remove_absent : (k : String) (d : Dict String Bytes) → get k d ≡ none → remove k d ≡ d
  unfolding remove get
  remove_absent k [] h = refl
  remove_absent k ((j, b) ∷ d) h = ground (arith, remove_absent k d)

  none_of : (o : Option Bytes) → is_some o ≡ false → o ≡ none
  none_of none h = refl
  none_of (some b) h = absurd (ground arith)

  pub held-remove :
      (p : Row → Bool) (k : String) (d : Dict String Bytes)
      → is_distinct d ≡ true
      → held p d ≡ at_key p (get k d) + held p (remove k d)
  unfolding held remove get is_distinct at_key
  held-remove p k [] h = refl
  held-remove p k ((j, b) ∷ d) h = elim (beq_cases j k) [
    | inl e ↦
        let n : get k d ≡ none = rw (sym e) (none_of (get j d) (ground arith)) in
        ground (arith, remove_absent k d, beq_refl k)
    | inr e ↦ ground (arith, held-remove p k d)
  ]

  pub held_at-remove :
      (p : Row → Bool) (k : String) (ks : List String) (d : Dict String Bytes)
      → held_at p ks (remove k d) ≤ held_at p ks d
  unfolding held_at at_key
  held_at-remove p k [] d = omega arith
  held_at-remove p k (j ∷ ks) d = ground (arith, held_at-remove p k ks d, get-remove k j d)

  pub held_at-remove_other :
      (p : Row → Bool) (k : String) (ks : List String) (d : Dict String Bytes)
      → exists (λ j. j == k) ks ≡ false
      → held_at p ks (remove k d) ≡ held_at p ks d
  unfolding held_at
  held_at-remove_other p k [] d h = refl
  held_at-remove_other p k (j ∷ ks) d h =
      ground (arith, held_at-remove_other p k ks d, get-remove k j d, beq_sym j k)

  pub held_at-put_other :
      (p : Row → Bool) (k : String) (body : Bytes) (ks : List String) (d : Dict String Bytes)
      → exists (λ j. j == k) ks ≡ false
      → held_at p ks (put k body d) ≡ held_at p ks d
  unfolding held_at
  held_at-put_other p k body [] d h = refl
  held_at-put_other p k body (j ∷ ks) d h =
      ground (arith, held_at-put_other p k body ks d, get-put k j body d, beq_sym j k)

  unfoldable pub all_rows : List Frame → List Row
  all_rows [] = []
  all_rows (f ∷ fs) = rows f ++ all_rows fs

  count_if-append :
      (p : Row → Bool) (xs ys : List Row) → count_if p (xs ++ ys) ≡ count_if p xs + count_if p ys
  count_if-append p [] ys = omega arith
  count_if-append p (x ∷ xs) ys = ground (arith, count_if-append p xs ys)

  pub count_if-all_rows :
      (p : Row → Bool) (fs : List Frame) → count_if p (all_rows fs) ≡ held_in p fs
  unfolding all_rows held_in
  count_if-all_rows p [] = refl
  count_if-all_rows p (f ∷ fs) =
      omega (arith, count_if-append p (rows f) (all_rows fs), count_if-all_rows p fs)

  -- What polars promises: a concatenation has the rows of its frames, and a file that is read back
  -- has the rows that were written.
  pub record ParquetLaws : Type 0 where
    pub concat_rows : (fs : List Frame) (f : Frame) → concat fs ≡ some f → rows f ≡ all_rows fs
    pub read_back : (f g : Frame) → read_parquet (write_parquet f) ≡ some g → rows g ≡ rows f
