-- ===== src/Lake/Compactor/Requests.antt =====
-- What the compactor's requests come to, by the contents of the bucket before and behind them.
use mathlib.Core.Path.{subst}
use agentic_data_engineering.Lake.Storage.{
  no_repeat, concat_pages, Uncertain, ClientError, S3, S3Laws, PutReport, DeleteReport, GetReport,
  ListReport, Storage, StorageError, is_closed, request, put_object, get_object, delete_object,
  list_objects,
}
use agentic_data_engineering.Lake.Compactor.{
  Parquet, CompactionError, storage_error, stored, or_raise, read_frames, CompactionConfig,
}
use agentic_data_engineering.Lake.Compactor.Contents.{
  file_rows, at_key, at_key-some, held_at, held_in,
}
use agentic_data_engineering.Base.{
  ℕ, ◌+◌, String, ◌≡◌, refl, sym, ap, ◌∙◌, inl, inr, Bool, true, false, Option, none, some, List,
  [], ◌∷◌, arith, if◌then◌else◌, exists, count_if,
}
use agentic_data_engineering.Base.Equality.{◌==◌, nat_eq, string_eq, option_eq, beq_cases}
use agentic_data_engineering.Base.Dict.{Dict, get, put, remove}
use agentic_data_engineering.Base.Exec.{Result, ok, err, bind_rule, map_err, map_ok}

module _ (s3 : S3) where
  open s3 use {Bytes, State, contents}

  abbrev pub objects : Storage s3 → Dict String Bytes
  objects s = contents s.client

  abbrev pub Answer : Type 0 → Type 0
  Answer A = Result CompactionError A × Storage s3

  abbrev pub PutAnswer : String → Bytes → Storage s3 → Answer Unit → Type 0
  PutAnswer key body s (ok done, t) = objects t ≡ put key body (objects s)
  PutAnswer key body s (err e, t) = Uncertain (objects s) (put key body (objects s)) (objects t)

  abbrev pub DeleteAnswer : String → Storage s3 → Answer Unit → Type 0
  DeleteAnswer key s (ok done, t) = objects t ≡ remove key (objects s)
  DeleteAnswer key s (err e, t) = Uncertain (objects s) (remove key (objects s)) (objects t)

  abbrev pub GetAnswer : String → Storage s3 → Answer Bytes → Type 0
  GetAnswer key s (ok body, t) = (objects t ≡ objects s) × (get key (objects s) ≡ some body)
  GetAnswer key s (err e, t) = objects t ≡ objects s

  abbrev pub ListAnswer : Storage s3 → Answer (List String) → Type 0
  ListAnswer s (ok keys, t) = (objects t ≡ objects s) × (no_repeat keys ≡ true)
  ListAnswer s (err e, t) = objects t ≡ objects s

module _ (s3 : S3) (pq : Parquet s3.Bytes) (config : CompactionConfig) (laws : S3Laws s3) where
  open s3 use {Bytes, State, contents}
  open pq use {Row, Frame, rows, concat, read_parquet, write_parquet, len}

  pub request_rule :
      {A : Type 0} (ask : State → Result ClientError A × State) (fail : ClientError → StorageError)
      (s : Storage s3) (Q : Answer s3 A → Type 0)
      → Q (err (storage_error is_closed), s)
      → ((e : ClientError) (t : State)
          → ask s.client ≡ (err e, t)
          → Q (err (storage_error (fail e)), record s { client = t }))
      → ((a : A) (t : State) → ask s.client ≡ (ok a, t) → Q (ok a, record s { client = t }))
      → Q (stored s3 pq config (request s3 ask fail) s)
  unfolding stored request
  request_rule {A} ask fail s Q closed failed answered = by_closed s.closed
    where
      replied :
          (x : Result ClientError A × State)
          → ask s.client ≡ x
          → Q (map_err storage_error (map_err fail x.0), record s { client = x.1 })
      replied (ok a, t) h = answered a t h
      replied (err e, t) h = failed e t h

      by_closed :
          (b : Bool)
          → Q (
              stored s3 pq config
                (λ u.
                  if b
                  then (err is_closed, u)
                  else (map_err fail (ask u.client).0, record u { client = (ask u.client).1 }))
                s)
      by_closed true = closed
      by_closed false = replied (ask s.client) refl

  pub put_object-PutAnswer :
      (key : String) (body : Bytes) (s : Storage s3)
      → PutAnswer s3 key body s (stored s3 pq config (put_object s3 key body) s)
  unfolding put_object
  put_object-PutAnswer key body s =
      request_rule (s3.put_object key body) _ s (PutAnswer s3 key body s) (inl refl)
        (λ e t h. subst (PutReport s3 key body s.client) h (laws.puts key body s.client))
        (λ a t h. subst (PutReport s3 key body s.client) h (laws.puts key body s.client))

  pub delete_object-DeleteAnswer :
      (key : String) (s : Storage s3)
      → DeleteAnswer s3 key s (stored s3 pq config (delete_object s3 key) s)
  unfolding delete_object
  delete_object-DeleteAnswer key s =
      request_rule (s3.delete_object key) _ s (DeleteAnswer s3 key s) (inl refl)
        (λ e t h. subst (DeleteReport s3 key s.client) h (laws.deletes key s.client))
        (λ a t h. subst (DeleteReport s3 key s.client) h (laws.deletes key s.client))

  pub get_object-GetAnswer :
      (key : String) (s : Storage s3)
      → GetAnswer s3 key s (stored s3 pq config (get_object s3 key) s)
  unfolding get_object
  get_object-GetAnswer key s =
      request_rule (s3.get_object key) _ s (GetAnswer s3 key s) refl
        (λ e t h. subst (GetReport s3 key s.client) h (laws.gets key s.client))
        (λ a t h. subst (GetReport s3 key s.client) h (laws.gets key s.client))

  pub list_objects-ListAnswer :
      (prefix : String) (s : Storage s3)
      → ListAnswer s3 s (stored s3 pq config (list_objects s3 prefix) s)
  unfolding list_objects
  list_objects-ListAnswer prefix s =
      request_rule _ _ s (ListAnswer s3 s) refl
        (λ e t h. failed e t (s3.list_objects_v2 prefix s.client) h (laws.lists prefix s.client))
        (λ a t h. answered a t (s3.list_objects_v2 prefix s.client) h (laws.lists prefix s.client))
    where
      mapped :
          Result ClientError (List (List String)) × State → Result ClientError (List String) × State
      mapped x = (map_ok concat_pages x.0, x.1)

      failed :
          (e : ClientError) (t : State) (x : Result ClientError (List (List String)) × State)
          → mapped x ≡ (err e, t)
          → ListReport s3 s.client x
          → contents t ≡ contents s.client
      failed e t (ok a, u) h r = absurd (ground arith)
      failed e t (err x, u) h r = rw (sym (ap (λ z. z.1) h)) r

      answered :
          (keys : List String) (t : State) (x : Result ClientError (List (List String)) × State)
          → mapped x ≡ (ok keys, t)
          → ListReport s3 s.client x
          → ListAnswer s3 s (ok keys, record s { client = t })
      answered keys t (ok a, u) h r =
          let first : ok (concat_pages a) ≡ ok keys = ap (λ z. z.0) h in
          let p : concat_pages a ≡ keys = cc in
          let q : u ≡ t = ap (λ z. z.1) h in rw (sym p, sym q) r
      answered keys t (err x, u) h r = absurd (ground arith)

  -- What reading the files comes to: the bucket as it was, and the rows of the files.
  abbrev pub ReadReport : List String → Storage s3 → Answer s3 (List Frame × ℕ) → Type 0
  ReadReport keys s (ok found, t) =
      (objects s3 t ≡ objects s3 s)
      × ((p : Row → Bool) → held_in pq p found.0 ≡ held_at pq p keys (objects s3 s))
      × ((key : String) → get key (objects s3 s) ≡ none → exists (λ j. j == key) keys ≡ false)
  ReadReport keys s (err e, t) = objects s3 t ≡ objects s3 s

  pub or_raise_failed :
      {A : Type 0} (o : Option A) (s t : Storage s3) (e : CompactionError)
      → or_raise s3 pq config o s ≡ (err e, t)
      → t ≡ s
  unfolding or_raise
  or_raise_failed none s t e h = sym (ap (λ z. z.1) h)
  or_raise_failed (some a) s t e h = sym (ap (λ z. z.1) h)

  pub or_raise_answered :
      {A : Type 0} (o : Option A) (s t : Storage s3) (a : A)
      → or_raise s3 pq config o s ≡ (ok a, t)
      → (t ≡ s) × (o ≡ some a)
  unfolding or_raise
  or_raise_answered none s t a h = absurd (ground (arith, ap (λ z. z.0) h))
  or_raise_answered (some b) s t a h =
      let first : ok b ≡ ok a = ap (λ z. z.0) h in (sym (ap (λ z. z.1) h), cc)

  read_more :
      (key : String) (keys : List String) (s t u v : Storage s3) (body : Bytes) (frame : Frame)
      (found : List Frame × ℕ) (n : ℕ)
      → GetAnswer s3 key s (ok body, t)
      → (u ≡ t) × (read_parquet body ≡ some frame)
      → ReadReport keys u (ok found, v)
      → ReadReport (key ∷ keys) s (ok (frame ∷ found.0, n), v)
  unfolding held_in held_at at_key file_rows
  read_more key keys s t u v body frame found n got raised rest =
      let same : objects s3 u ≡ objects s3 s = ap (objects s3) raised.0 ∙ got.0 in
      (rest.0 ∙ same, λ p. counted p same, λ k absent. apart k absent same)
    where
      counted :
          (p : Row → Bool)
          → objects s3 u ≡ objects s3 s
          → held_in pq p (frame ∷ found.0) ≡ held_at pq p (key ∷ keys) (objects s3 s)
      counted p same =
          let here : at_key pq p (get key (objects s3 s)) ≡ count_if p (rows frame) =
            rw got.1 (at_key-some pq p body frame raised.1) in
          let there : held_in pq p found.0 ≡ held_at pq p keys (objects s3 s) =
            subst (λ d. held_in pq p found.0 ≡ held_at pq p keys d) same (rest.1 p) in
          omega arith

      apart :
          (k : String)
          → get k (objects s3 s) ≡ none
          → objects s3 u ≡ objects s3 s
          → exists (λ j. j == k) (key ∷ keys) ≡ false
      apart k absent same = elim (beq_cases key k) [
        | inl e ↦ absurd (let p : get key (objects s3 s) ≡ none = rw e absent in ground arith)
        | inr e ↦
            let p : exists (λ j. j == k) keys ≡ false = rest.2 k (rw same absent) in ground arith
      ]

  pub read_frames-ReadReport :
      (keys : List String) (s : Storage s3) → ReadReport keys s (read_frames s3 pq config keys s)
  unfolding read_frames held_in held_at
  read_frames-ReadReport [] s = (refl, λ p. refl, λ key h. refl)
  read_frames-ReadReport (key ∷ keys) s =
      bind_rule (stored s3 pq config (get_object s3 key)) _ s (ReadReport (key ∷ keys) s)
        (λ e t h. subst (GetAnswer s3 key s) h (get_object-GetAnswer key s))
        (λ body t h.
          bind_rule (or_raise s3 pq config (read_parquet body)) _ t (ReadReport (key ∷ keys) s)
            (λ e u k.
              ap (objects s3) (or_raise_failed _ t u e k)
              ∙ (subst (GetAnswer s3 key s) h (get_object-GetAnswer key s)).0)
            (λ frame u k.
              bind_rule (read_frames s3 pq config keys) _ u (ReadReport (key ∷ keys) s)
                (λ e v l.
                  subst (ReadReport keys u) l (read_frames-ReadReport keys u)
                  ∙ ap (objects s3) (or_raise_answered _ t u frame k).0
                  ∙ (subst (GetAnswer s3 key s) h (get_object-GetAnswer key s)).0)
                (λ found v l.
                  read_more key keys s t u v body frame found (len body + found.1)
                    (subst (GetAnswer s3 key s) h (get_object-GetAnswer key s))
                    (or_raise_answered _ t u frame k)
                    (subst (ReadReport keys u) l (read_frames-ReadReport keys u)))))
