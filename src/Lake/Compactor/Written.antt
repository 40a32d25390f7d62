-- ===== src/Lake/Compactor/Written.antt =====
-- Writing the compacted file, by the rows that the bucket holds before and behind it.
use mathlib.Core.Path.{subst}
use agentic_data_engineering.Lake.Storage.{S3, S3Laws, Storage, put_object, get_object}
use agentic_data_engineering.Lake.Compactor.{
  Parquet, CompactionError, polars_error, CompactionConfig, stored, or_raise, write_compacted,
}
use agentic_data_engineering.Lake.Compactor.Contents.{
  file_rows, at_key, at_key-some, held, held_at, held-put, held_at-put_other, ParquetLaws,
}
use agentic_data_engineering.Lake.Compactor.Requests.{
  objects, Answer, PutAnswer, put_object-PutAnswer, GetAnswer, get_object-GetAnswer,
}
use agentic_data_engineering.Base.{
  ◌+◌, ◌≤◌, String, ◌≡◌, refl, sym, ap, ◌∙◌, inl, inr, Bool, false, Option, none, some, List, arith,
  exists, count_if,
}
use agentic_data_engineering.Base.Equality.{◌==◌, nat_eq, string_eq, option_eq, beq_refl}
use agentic_data_engineering.Base.Dict.{get, put, get-put}
use agentic_data_engineering.Base.Exec.{ok, err, bind_rule, ◌>>=◌}

module _ (s3 : S3) (pq : Parquet s3.Bytes) (config : CompactionConfig) (laws : S3Laws s3)
    (pq_laws : ParquetLaws pq) where
  open s3 use {Bytes}
  open pq use {Row, Frame, rows, concat, read_parquet, write_parquet}

  -- What writing the compacted file comes to: no row is lost, and where it is read back it has the
  -- rows that were written, beside the files that were there.
  abbrev pub CompactedAnswer : String → Frame → Storage s3 → Answer s3 Frame → Type 0
  CompactedAnswer key f s (ok g, t) =
      (rows g ≡ rows f)
      × ((p : Row → Bool)
          → held pq p (objects s3 t) ≡ count_if p (rows f) + held pq p (objects s3 s))
      × ((keys : List String) (p : Row → Bool)
          → exists (λ j. j == key) keys ≡ false
          → held_at pq p keys (objects s3 t) ≡ held_at pq p keys (objects s3 s))
  CompactedAnswer key f s (err e, t) =
      (p : Row → Bool) → held pq p (objects s3 s) ≤ held pq p (objects s3 t)

  held_le-put :
      (p : Row → Bool) (key : String) (body : Bytes) (s : Storage s3)
      → get key (objects s3 s) ≡ none
      → held pq p (objects s3 s) ≤ held pq p (put key body (objects s3 s))
  held_le-put p key body s h = omega (arith, held-put pq p key body (objects s3 s) h)

  not_written :
      (key : String) (f : Frame) (s t : Storage s3) (e : CompactionError)
      → get key (objects s3 s) ≡ none
      → PutAnswer s3 key (write_parquet f) s (err e, t)
      → CompactedAnswer key f s (err e, t)
  not_written key f s t e absent (inl same) = λ p. rw same (omega arith)
  not_written key f s t e absent (inr there) =
      λ p. rw there (held_le-put p key (write_parquet f) s absent)

  lost_answer :
      (key : String) (f : Frame) (s t u : Storage s3) (e : CompactionError)
      → get key (objects s3 s) ≡ none
      → objects s3 t ≡ put key (write_parquet f) (objects s3 s)
      → objects s3 u ≡ objects s3 t
      → CompactedAnswer key f s (err e, u)
  lost_answer key f s t u e absent there same =
      λ p. rw (same, there) (held_le-put p key (write_parquet f) s absent)

  got_back :
      (key : String) (f g : Frame) (body : Bytes) (s t u : Storage s3)
      → get key (objects s3 s) ≡ none
      → objects s3 t ≡ put key (write_parquet f) (objects s3 s)
      → GetAnswer s3 key t (ok body, u)
      → read_parquet body ≡ some g
      → CompactedAnswer key f s (ok g, u)
  unfolding file_rows at_key
  got_back key f g body s t u absent there got h =
      let found : get key (put key (write_parquet f) (objects s3 s)) ≡ some body =
        rw (sym there) got.1 in
      let same : body ≡ write_parquet f =
        ground (arith, get-put key key (write_parquet f) (objects s3 s), beq_refl key) in
      let back : read_parquet (write_parquet f) ≡ some g = rw (sym same) h in
      let e : rows g ≡ rows f = pq_laws.read_back f g back in
      (
        e,
        λ p. counted p back e,
        λ keys p apart.
            rw (got.0, there)
              (held_at-put_other pq p key (write_parquet f) keys (objects s3 s) apart),
      )
    where
      counted :
          (p : Row → Bool)
          → read_parquet (write_parquet f) ≡ some g
          → rows g ≡ rows f
          → held pq p (objects s3 u) ≡ count_if p (rows f) + held pq p (objects s3 s)
      counted p back e =
          let n = held-put pq p key (write_parquet f) (objects s3 s) absent in
          let m : count_if p (file_rows pq (write_parquet f)) ≡ count_if p (rows f) =
            at_key-some pq p (write_parquet f) g back ∙ ap (λ x. count_if p x) e in
          rw (got.0, there) (omega arith)

  pub write_compacted-CompactedAnswer :
      (key : String) (f : Frame) (s : Storage s3)
      → get key (objects s3 s) ≡ none
      → CompactedAnswer key f s (write_compacted s3 pq config key f s)
  unfolding write_compacted or_raise
  write_compacted-CompactedAnswer key f s absent =
      bind_rule (stored s3 pq config (put_object s3 key (write_parquet f))) _ s
        (CompactedAnswer key f s)
        (λ e t h. not_written key f s t e absent (
          subst (PutAnswer s3 key (write_parquet f) s) h
            (put_object-PutAnswer s3 pq config laws key (write_parquet f) s)))
        (λ done t h. put_done t (
          subst (PutAnswer s3 key (write_parquet f) s) h
            (put_object-PutAnswer s3 pq config laws key (write_parquet f) s)))
    where
      put_done :
          (t : Storage s3)
          → objects s3 t ≡ put key (write_parquet f) (objects s3 s)
          → CompactedAnswer key f s (
              (stored s3 pq config (get_object s3 key) >>= λ body.
              or_raise s3 pq config (read_parquet body))
                t)
      put_done t there =
          bind_rule (stored s3 pq config (get_object s3 key)) _ t (CompactedAnswer key f s)
            (λ e u h.
              lost_answer key f s t u e absent there
                (subst (GetAnswer s3 key t) h (get_object-GetAnswer s3 pq config laws key t)))
            (λ body u h.
              decoded t u body there
                (subst (GetAnswer s3 key t) h (get_object-GetAnswer s3 pq config laws key t))
                (read_parquet body) refl)
        where
          decoded :
              (t u : Storage s3) (body : Bytes)
              → objects s3 t ≡ put key (write_parquet f) (objects s3 s)
              → GetAnswer s3 key t (ok body, u)
              → (o : Option Frame) → read_parquet body ≡ o
              → CompactedAnswer key f s (or_raise s3 pq config o u)
          decoded t u body there got none h =
              lost_answer key f s t u polars_error absent there got.0
          decoded t u body there got (some g) h = got_back key f g body s t u absent there got h
