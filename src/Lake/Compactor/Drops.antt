-- ===== src/Lake/Compactor/Drops.antt =====
-- Deleting the source files, by the rows that the bucket holds before and behind it.
use mathlib.Core.Path.{subst}
use agentic_data_engineering.Lake.Compactor.Requests.{
  objects, Answer, DeleteAnswer, delete_object-DeleteAnswer,
}
use agentic_data_engineering.Lake.Storage.{no_repeat, S3, S3Laws, Storage, delete_object}
use agentic_data_engineering.Lake.Compactor.{
  Parquet, CompactionError, stored, delete_all, CompactionConfig,
}
use agentic_data_engineering.Lake.Compactor.Contents.{
  held, held_at, held-remove, held_at-remove, held_at-remove_other,
}
use agentic_data_engineering.Base.{
  ◌+◌, ◌≤◌, String, ◌≡◌, inl, inr, Bool, true, not, List, [], ◌∷◌, arith, exists,
}
use agentic_data_engineering.Base.Equality.{◌==◌, nat_eq, string_eq, option_eq}
use agentic_data_engineering.Base.Dict.{remove}
use agentic_data_engineering.Base.Exec.{ok, err, bind_rule}

module _ (s3 : S3) (pq : Parquet s3.Bytes) (config : CompactionConfig) (laws : S3Laws s3) where
  open pq use {Row}

  -- What deleting the files comes to.
  abbrev pub DropReport : List String → Storage s3 → Answer s3 Unit → Type 0
  DropReport keys s (ok done, t) =
      (p : Row → Bool)
      → held pq p (objects s3 s) ≡ held_at pq p keys (objects s3 s) + held pq p (objects s3 t)
  DropReport keys s (err e, t) =
      (p : Row → Bool)
      → held pq p (objects s3 s) ≤ held_at pq p keys (objects s3 s) + held pq p (objects s3 t)

  drop_more :
      (key : String) (keys : List String) (s t : Storage s3) (x : Answer s3 Unit)
      → not (exists (λ j. j == key) keys) ≡ true
      → objects s3 t ≡ remove key (objects s3 s)
      → DropReport keys t x
      → DropReport (key ∷ keys) s x
  unfolding held_at
  drop_more key keys s t (ok done, u) h gone rest = λ p.
      let a = held-remove pq p key (objects s3 s) (laws.one_object s.client) in
      let b = held_at-remove_other pq p key keys (objects s3 s) (ground arith) in
      let c : held pq p (remove key (objects s3 s))
          ≡ held_at pq p keys (remove key (objects s3 s)) + held pq p (objects s3 u) =
        subst (λ d. held pq p d ≡ held_at pq p keys d + held pq p (objects s3 u)) gone (rest p) in
      omega arith
  drop_more key keys s t (err e, u) h gone rest = λ p.
      let a = held-remove pq p key (objects s3 s) (laws.one_object s.client) in
      let b = held_at-remove pq p key keys (objects s3 s) in
      let c : held pq p (remove key (objects s3 s))
          ≤ held_at pq p keys (remove key (objects s3 s)) + held pq p (objects s3 u) =
        subst (λ d. held pq p d ≤ held_at pq p keys d + held pq p (objects s3 u)) gone (rest p) in
      omega arith

  drop_failed :
      (key : String) (keys : List String) (s t : Storage s3) (e : CompactionError)
      → DeleteAnswer s3 key s (err e, t)
      → DropReport (key ∷ keys) s (err e, t)
  unfolding held_at
  drop_failed key keys s t e (inl same) = λ p. rw same (omega arith)
  drop_failed key keys s t e (inr gone) = λ p.
      let a = held-remove pq p key (objects s3 s) (laws.one_object s.client) in
      rw gone (omega arith)

  pub delete_all-DropReport :
      (keys : List String) (s : Storage s3)
      → no_repeat keys ≡ true
      → DropReport keys s (delete_all s3 pq config keys s)
  unfolding delete_all held_at no_repeat
  delete_all-DropReport [] s h = λ p. omega arith
  delete_all-DropReport (key ∷ keys) s h =
      bind_rule (stored s3 pq config (delete_object s3 key)) _ s (DropReport (key ∷ keys) s)
        (λ e t k.
          drop_failed key keys s t e
            (subst (DeleteAnswer s3 key s) k (delete_object-DeleteAnswer s3 pq config laws key s)))
        (λ done t k.
          drop_more key keys s t _ (ground arith)
            (subst (DeleteAnswer s3 key s) k (delete_object-DeleteAnswer s3 pq config laws key s))
            (delete_all-DropReport keys t (ground arith)))
