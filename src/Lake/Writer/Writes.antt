-- ===== src/Lake/Writer/Writes.antt =====
-- What the writers leave in the bucket.
use mathlib.Core.Path.{subst}
use agentic_data_engineering.Processor.Columns.{Polars}
use agentic_data_engineering.Processor.Events.{Event}
use agentic_data_engineering.Lake.PartitionKey.{LakeLayer}
use agentic_data_engineering.Lake.Storage.{
  ClientError, S3, S3Laws, PutReport, StorageError, is_closed, Storage, request, put_object,
}
use agentic_data_engineering.Lake.Writer.Files.{event_to_row_valid, file, put_all, put_all_again}
use agentic_data_engineering.Lake.Writer.{
  Formats, WriteError, schema_violations, write_failed, flush_failed, event_key, upload, Writer,
  write_single, note_failure, write_all, raise_failures, settle_flush, flush_batch, clear,
}
use agentic_data_engineering.Base.{
  ℕ, suc, ◌≤◌, ◌<◌, String, ◌≡◌, refl, sym, ap, ◌∙◌, Bool, true, false, List, [], ◌∷◌, ◌++◌, arith,
  if◌then◌else◌, length, take, length-append,
}
use agentic_data_engineering.Base.Equality.{nat_eq, string_eq, option_eq}
use agentic_data_engineering.Base.Dict.{get, put}
use agentic_data_engineering.Base.Exec.{Result, ok, err, map_err, continue}

module _ (P : Polars) (s3 : S3) (F : Formats P s3.Bytes) (layer : LakeLayer) where
  open s3 use {Bytes, State, contents}

  -- What a write comes to.
  abbrev pub WriteReport : Event P → Storage s3 → Result WriteError Unit × Storage s3 → Type 0
  WriteReport event s (ok done, t) =
      contents t.client
      ≡ put (event_key P s3 F layer event) (file P s3 F layer event) (contents s.client)
  WriteReport event s (err (write_failed e), t) = Unit
  WriteReport event s (err (schema_violations v), t) = ⊥
  WriteReport event s (err (flush_failed n ids), t) = ⊥

  pub write_single-WriteReport :
      (laws : S3Laws s3) (event : Event P) (s : Storage s3)
      → WriteReport event s (write_single P s3 F layer event s)
  unfolding write_single upload put_object request
  write_single-WriteReport laws event s =
      subst (λ v. WriteReport event s (upload P s3 F layer event v s))
        (sym (event_to_row_valid P s3 F layer layer event)) (by_closed s.closed)
    where
      key : String
      key = event_key P s3 F layer event

      replied :
          (x : Result ClientError Unit × State)
          → PutReport s3 key (file P s3 F layer event) s.client x
          → WriteReport event s (
            map_err write_failed (map_err (λ e. StorageError.put_failed) x.0),
            record s { client = x.1 },
          )
      replied (ok done, t) h = h
      replied (err e, t) h = tt

      asked : Bool → Result StorageError Unit × Storage s3
      asked b =
          if b
          then (err is_closed, s)
          else let (r, client) = s3.put_object key (file P s3 F layer event) s.client in
            (map_err (λ e. StorageError.put_failed) r, record s { client = client })

      by_closed : (b : Bool) → WriteReport event s (map_err write_failed (asked b).0, (asked b).1)
      by_closed true = tt
      by_closed false =
          replied (s3.put_object key (file P s3 F layer event) s.client)
            (laws.puts key (file P s3 F layer event) s.client)

  -- What the loop over the events comes to: it goes through all of them, and where no write failed it
  -- has put in their files.
  abbrev LoopReport :
      List (Event P)
      → List String
      → Storage s3
      → Result WriteError (List String) × Storage s3
      → Type 0
  LoopReport events errors s (ok found, t) =
      (length errors ≤ length found)
      × (found ≡ [] → contents t.client ≡ put_all P s3 F layer events (contents s.client))
  LoopReport events errors s (err e, t) = ⊥

  LoopReport-written :
      (event : Event P) (events : List (Event P)) (errors : List String) (s t : Storage s3)
      (x : Result WriteError (List String) × Storage s3)
      → WriteReport event s (ok tt, t)
      → LoopReport events errors t x
      → LoopReport (event ∷ events) errors s x
  unfolding put_all
  LoopReport-written event events errors s t (ok found, u) h r =
      (r.0, λ none_failed. r.1 none_failed ∙ ap (λ d. put_all P s3 F layer events d) h)
  LoopReport-written event events errors s t (err e, u) h r = r

  LoopReport-failed :
      (event : Event P) (events : List (Event P)) (errors : List String) (s t : Storage s3)
      (x : Result WriteError (List String) × Storage s3)
      → LoopReport events (errors ++ event.event_id ∷ []) t x
      → LoopReport (event ∷ events) errors s x
  LoopReport-failed event events errors s t (ok found, u) r =
      let n = length-append errors (event.event_id ∷ []) in
      (
        omega (arith, r.0),
        λ none_failed.
            absurd (let z : length found ≡ 0 = ap length none_failed in omega (arith, r.0)),
      )
  LoopReport-failed event events errors s t (err e, u) r = r

  write_all-LoopReport :
      (laws : S3Laws s3) (events : List (Event P)) (errors : List String) (s : Storage s3)
      → LoopReport events errors s (write_all P s3 F layer events errors s)
  unfolding write_all note_failure put_all
  write_all-LoopReport laws [] errors s = (omega arith, λ h. refl)
  write_all-LoopReport laws (event ∷ events) errors s =
      go (λ noted t. write_all-LoopReport laws events noted t) (write_single P s3 F layer event s)
        (write_single-WriteReport laws event s)
    where
      go :
          ((noted : List String) (t : Storage s3)
            → LoopReport events noted t (write_all P s3 F layer events noted t))
          → (x : Result WriteError Unit × Storage s3) → WriteReport event s x
          → LoopReport (event ∷ events) errors s (
              continue
                (note_failure P s3 F layer event errors x.0)
                (λ noted. write_all P s3 F layer events noted)
                x.1)
      go rest (ok done, t) h = LoopReport-written event events errors s t _ h (rest errors t)
      go rest (err (write_failed e), t) h =
          LoopReport-failed event events errors s t _ (rest (errors ++ event.event_id ∷ []) t)
      go rest (err (schema_violations v), t) h = absurd h
      go rest (err (flush_failed n ids), t) h = absurd h

  -- What a flush comes to.
  abbrev FlushReport :
      Writer P s3 F layer → List (Event P) → Result WriteError Unit × Writer P s3 F layer → Type 0
  FlushReport w events (ok done, v) =
      (contents v.storage.client ≡ put_all P s3 F layer events (contents w.storage.client))
      × (v.batch.events ≡ [])
  FlushReport w events (err e, v) =
      ((n : ℕ) × (ids : List String) × (e ≡ flush_failed n ids) × (0 < n)) × (v.batch.events ≡ [])

  settle-FlushReport :
      (w : Writer P s3 F layer) (events : List (Event P))
      (x : Result WriteError (List String) × Storage s3)
      → LoopReport events [] w.storage x
      → FlushReport w events (settle_flush P s3 F layer w x)
  unfolding settle_flush raise_failures clear
  settle-FlushReport w events (err e, t) h = absurd h
  settle-FlushReport w events (ok [], t) h = (h.1 refl, refl)
  settle-FlushReport w events (ok (id ∷ ids), t) h =
      ((suc (length ids), take 5 (id ∷ ids), refl, omega arith), refl)

  flush_batch-FlushReport :
      (laws : S3Laws s3) (w : Writer P s3 F layer)
      → FlushReport w w.batch.events (flush_batch P s3 F layer w)
  unfolding flush_batch put_all
  flush_batch-FlushReport laws w = by_events w.batch.events refl
    where
      by_events :
          (events : List (Event P))
          → w.batch.events ≡ events
          → FlushReport w events (elim events [
            | [] ↦ (ok tt, w)
            | event ∷ rest ↦
                settle_flush P s3 F layer w (write_all P s3 F layer (event ∷ rest) [] w.storage)
          ])
      by_events [] h = (refl, h)
      by_events (event ∷ rest) h =
          settle-FlushReport w (event ∷ rest) _
            (write_all-LoopReport laws (event ∷ rest) [] w.storage)

  -- A flush that returns has emptied the batch and put in the files of its events, in their order,
  -- and no other file.
  pub flush_batch-ok :
      (laws : S3Laws s3) (w : Writer P s3 F layer)
      → (flush_batch P s3 F layer w).0 ≡ ok tt
      → (contents (flush_batch P s3 F layer w).1.storage.client
          ≡ put_all P s3 F layer w.batch.events (contents w.storage.client))
        × ((flush_batch P s3 F layer w).1.batch.events ≡ [])
  flush_batch-ok laws w h = go (flush_batch P s3 F layer w) (flush_batch-FlushReport laws w) h
    where
      go :
          (x : Result WriteError Unit × Writer P s3 F layer)
          → FlushReport w w.batch.events x
          → x.0 ≡ ok tt
          → (contents x.1.storage.client
              ≡ put_all P s3 F layer w.batch.events (contents w.storage.client))
            × (x.1.batch.events ≡ [])
      go (ok done, v) r h = r
      go (err e, v) r h = absurd (ground arith)

  -- A flush that raises reports at least one event, and has emptied the batch all the same: the events
  -- whose write failed are not in the writer any more.
  pub flush_batch-raises :
      (laws : S3Laws s3) (w : Writer P s3 F layer) (e : WriteError)
      → (flush_batch P s3 F layer w).0 ≡ err e
      → ((n : ℕ) × (ids : List String) × (e ≡ flush_failed n ids) × (0 < n))
        × ((flush_batch P s3 F layer w).1.batch.events ≡ [])
  flush_batch-raises laws w e h = go (flush_batch P s3 F layer w) (flush_batch-FlushReport laws w) h
    where
      go :
          (x : Result WriteError Unit × Writer P s3 F layer)
          → FlushReport w w.batch.events x
          → x.0 ≡ err e
          → ((n : ℕ) × (ids : List String) × (e ≡ flush_failed n ids) × (0 < n))
            × (x.1.batch.events ≡ [])
      go (ok done, v) r h = absurd (ground arith)
      go (err z, v) r h = let p : z ≡ e = cc in ((r.0.0, r.0.1, sym p ∙ r.0.2, r.0.3), r.1)

  -- A flush of the same events to the storage that the first flush left, where both return, changes no
  -- file.
  pub flush_batch_again :
      (laws : S3Laws s3) (w v : Writer P s3 F layer) (k : String)
      → v.storage ≡ (flush_batch P s3 F layer w).1.storage
      → v.batch.events ≡ w.batch.events
      → (flush_batch P s3 F layer w).0 ≡ ok tt
      → (flush_batch P s3 F layer v).0 ≡ ok tt
      → get k (contents (flush_batch P s3 F layer v).1.storage.client)
        ≡ get k (contents (flush_batch P s3 F layer w).1.storage.client)
  flush_batch_again laws w v k left same first second =
      let a : contents v.storage.client
          ≡ put_all P s3 F layer w.batch.events (contents w.storage.client) =
        ap (λ s. contents s.client) left ∙ (flush_batch-ok laws w first).0 in
      let b = (flush_batch-ok laws v second).0 in
      ap (λ d. get k d) b
      ∙ ap (λ es. get k (put_all P s3 F layer es (contents v.storage.client))) same
      ∙ ap (λ d. get k (put_all P s3 F layer w.batch.events d)) a
      ∙ put_all_again P s3 F layer k w.batch.events (contents w.storage.client)
      ∙ ap (λ d. get k d) (sym (flush_batch-ok laws w first).0)
