-- ===== src/Lake/Storage.antt =====
-- libs/common/minio_storage.py: the object storage behind the writers and the compactor.
use agentic_data_engineering.Base.{
  String, ◌≡◌, ◌⊎◌, Bool, true, not, ◌&&◌, some, List, [], ◌∷◌, ◌++◌, if◌then◌else◌, is_some,
  exists,
}
use agentic_data_engineering.Base.Equality.{◌==◌, nat_eq, string_eq, option_eq}
use agentic_data_engineering.Base.Dict.{Dict, get, put, remove}
use agentic_data_engineering.Base.Exec.{Result, ok, err, Exec, map_err, map_ok}

-- What a client of the object store answers: `ClientError` with the code of a missing key, or another
-- error of the store or the network.
pub data ClientError : Type 0 where
  no_such_key other_error : ClientError

-- Of a request that failed, the store may have carried it out or not.
abbrev pub Uncertain {ℓ} : {A : Type ℓ} → A → A → A → Type ℓ
Uncertain before after x = (x ≡ before) ⊎ (x ≡ after)

-- The `boto3` client of one bucket: what it answers to each request, and what the bucket holds.
pub record S3 : Type 1 where
  pub Bytes : Type 0
  pub State : Type 0
  pub contents : State → Dict String Bytes
  pub put_object : String → Bytes → State → Result ClientError Unit × State
  pub get_object : String → State → Result ClientError Bytes × State
  pub list_objects_v2 : String → State → Result ClientError (List (List String)) × State
  pub delete_object : String → State → Result ClientError Unit × State

-- No key twice.
unfoldable pub is_distinct {ℓ} : {V : Type ℓ} → Dict String V → Bool
unfolding get
is_distinct [] = true
is_distinct ((k, v) ∷ d) = not (is_some (get k d)) && is_distinct d

unfoldable pub no_repeat : List String → Bool
no_repeat [] = true
no_repeat (k ∷ ks) = not (exists (λ j. j == k) ks) && no_repeat ks

unfoldable pub concat_pages : List (List String) → List String
concat_pages [] = []
concat_pages (page ∷ pages) = page ++ concat_pages pages

-- What the object store documents: one object to a key, a read gives the object, a listing names no
-- key twice, and neither changes the bucket.
module _ (s3 : S3) where
  open s3 use {Bytes, State, contents}

  abbrev pub PutReport : String → Bytes → State → Result ClientError Unit × State → Type 0
  PutReport key body s (ok done, t) = contents t ≡ put key body (contents s)
  PutReport key body s (err e, t) = Uncertain (contents s) (put key body (contents s)) (contents t)

  abbrev pub DeleteReport : String → State → Result ClientError Unit × State → Type 0
  DeleteReport key s (ok done, t) = contents t ≡ remove key (contents s)
  DeleteReport key s (err e, t) = Uncertain (contents s) (remove key (contents s)) (contents t)

  abbrev pub GetReport : String → State → Result ClientError Bytes × State → Type 0
  GetReport key s (ok body, t) = (contents t ≡ contents s) × (get key (contents s) ≡ some body)
  GetReport key s (err e, t) = contents t ≡ contents s

  abbrev pub ListReport : State → Result ClientError (List (List String)) × State → Type 0
  ListReport s (ok pages, t) = (contents t ≡ contents s) × (no_repeat (concat_pages pages) ≡ true)
  ListReport s (err e, t) = contents t ≡ contents s

  pub record S3Laws : Type 0 where
    pub one_object : (s : State) → is_distinct (contents s) ≡ true
    pub puts :
        (key : String) (body : Bytes) (s : State) → PutReport key body s (s3.put_object key body s)
    pub gets : (key : String) (s : State) → GetReport key s (s3.get_object key s)
    pub lists : (prefix : String) (s : State) → ListReport s (s3.list_objects_v2 prefix s)
    pub deletes : (key : String) (s : State) → DeleteReport key s (s3.delete_object key s)

-- `StorageError` and the `KeyError` of a missing object
pub data StorageError : Type 0 where
  is_closed put_failed get_failed not_found list_failed delete_failed : StorageError

module _ (s3 : S3) where
  open s3 use {Bytes, State}

  -- `MinIOStorage`
  pub record Storage : Type 0 where
    pub closed : Bool
    pub client : State

  -- `_assert_open` before a request of the client; `fail` is the error that the client's becomes
  unfoldable pub request :
      {A : Type 0}
      → (State → Result ClientError A × State)
      → (ClientError → StorageError)
      → Exec Storage StorageError A
  request ask fail s =
      if s.closed
      then (err is_closed, s)
      else let (r, client) = ask s.client in (map_err fail r, record s { client = client })

  unfoldable pub put_object : String → Bytes → Exec Storage StorageError Unit
  unfolding request
  put_object key body = request (s3.put_object key body) (λ e. put_failed)

  unfoldable pub get_object : String → Exec Storage StorageError Bytes
  unfolding request
  get_object key =
      request (s3.get_object key)
        (λ e. elim e [ no_such_key ↦ not_found | other_error ↦ get_failed ])

  unfoldable pub delete_object : String → Exec Storage StorageError Unit
  unfolding request
  delete_object key = request (s3.delete_object key) (λ e. delete_failed)

  unfoldable pub list_objects : String → Exec Storage StorageError (List String)
  unfolding request concat_pages
  list_objects prefix =
      request
        (λ client.
          let (r, next) = s3.list_objects_v2 prefix client in (map_ok concat_pages r, next))
        (λ e. list_failed)

  unfoldable pub close : Storage → Storage
  close s = if s.closed then s else record s { closed = true }
