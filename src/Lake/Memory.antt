-- ===== src/Lake/Memory.antt =====
-- An object store in memory, for the tests: it keeps its objects in a dictionary, and the requests whose
-- number is listed fail without effect.
use agentic_data_engineering.Base.Texts.{starts_with}
use agentic_data_engineering.Lake.Storage.{
  is_distinct, no_repeat, concat_pages, ClientError, no_such_key, other_error, S3, S3Laws,
  GetReport,
}
use agentic_data_engineering.Base.{
  ℕ, ◌+◌, String, ◌≡◌, refl, inl, inr, Bool, true, false, Option, none, some, List, [], ◌∷◌, ◌++◌,
  append-nil, arith, if◌then◌else◌, Bool-cases, is_some, exists,
}
use agentic_data_engineering.Base.Equality.{◌==◌, nat_eq, string_eq, option_eq, beq_sym}
use agentic_data_engineering.Base.Dict.{Dict, get, put, remove, get-put, get-remove}
use agentic_data_engineering.Base.Exec.{Result, ok, err}

pub is_distinct-put :
    {V : Type 0} (k : String) (v : V) (d : Dict String V)
    → is_distinct d ≡ true
    → is_distinct (put k v d) ≡ true
unfolding is_distinct get put
is_distinct-put k v [] h = refl
is_distinct-put k v ((j, w) ∷ d) h =
    ground (arith, is_distinct-put k v d, get-put k j v d, beq_sym j k)

pub is_distinct-remove :
    {V : Type 0} (k : String) (d : Dict String V)
    → is_distinct d ≡ true
    → is_distinct (remove k d) ≡ true
unfolding is_distinct remove
is_distinct-remove k [] h = refl
is_distinct-remove k ((j, w) ∷ d) h = ground (arith, is_distinct-remove k d, get-remove k j d)

module _ (Body : Type 0) (failing : List ℕ) where
  pub record Memory : Type 0 where
    pub objects : Dict String Body
    pub distinct : is_distinct objects ≡ true
    pub requests : ℕ

  abbrev next : Memory → Memory
  next m = record m { requests = m.requests + 1 }

  abbrev fails : Memory → Bool
  fails m = exists (λ n. n == m.requests) failing

  abbrev keys_with : String → Dict String Body → List String
  keys_with prefix [] = []
  keys_with prefix ((k, v) ∷ d) =
      let rest = keys_with prefix d in if starts_with prefix k then k ∷ rest else rest

  exists-keys_with :
      (prefix k : String) (d : Dict String Body)
      → is_some (get k d) ≡ false
      → exists (λ j. j == k) (keys_with prefix d) ≡ false
  unfolding get
  exists-keys_with prefix k [] h = refl
  exists-keys_with prefix k ((j, v) ∷ d) h = ground (arith, exists-keys_with prefix k d)

  no_repeat-keys_with :
      (prefix : String) (d : Dict String Body)
      → is_distinct d ≡ true
      → no_repeat (keys_with prefix d ++ []) ≡ true
  unfolding is_distinct no_repeat
  no_repeat-keys_with prefix [] h = refl
  no_repeat-keys_with prefix ((k, v) ∷ d) h = ground (
    arith,
    no_repeat-keys_with prefix d,
    exists-keys_with prefix k d,
    append-nil (keys_with prefix d),
  )

  abbrev found : Option Body → Memory → Result ClientError Body × Memory
  found none m = (err no_such_key, m)
  found (some body) m = (ok body, m)

  abbrev put_in : String → Body → Memory → Memory
  put_in key body m = record {
    objects = put key body m.objects;
    distinct = is_distinct-put key body m.objects m.distinct;
    requests = m.requests + 1;
  }

  abbrev remove_in : String → Memory → Memory
  remove_in key m = record {
    objects = remove key m.objects;
    distinct = is_distinct-remove key m.objects m.distinct;
    requests = m.requests + 1;
  }

  abbrev pub memory : S3
  memory = record {
    Bytes = Body;
    State = Memory;
    contents = λ m. m.objects;
    put_object =
        λ key body m. if fails m then (err other_error, next m) else (ok tt, put_in key body m);
    get_object =
        λ key m. if fails m then (err other_error, next m) else found (get key m.objects) (next m);
    list_objects_v2 = λ prefix m.
        if fails m
        then (err other_error, next m)
        else (ok (keys_with prefix m.objects ∷ []), next m);
    delete_object =
        λ key m. if fails m then (err other_error, next m) else (ok tt, remove_in key m);
  }

  got :
      (key : String) (m : Memory) (o : Option Body)
      → get key m.objects ≡ o
      → GetReport memory key m (found o (next m))
  got key m none h = refl
  got key m (some body) h = (refl, h)

  pub memory_laws : S3Laws memory
  unfolding concat_pages
  memory_laws = record {
    one_object = λ m. m.distinct;
    puts =
        λ key body m. elim (Bool-cases (fails m)) [ inl e ↦ rw e (inl refl) | inr e ↦ rw e refl ];
    gets = λ key m. elim (Bool-cases (fails m)) [
      | inl e ↦ rw e refl
      | inr e ↦ rw e (got key m (get key m.objects) refl)
    ];
    lists = λ prefix m. elim (Bool-cases (fails m)) [
      | inl e ↦ rw e refl
      | inr e ↦ rw e (refl, no_repeat-keys_with prefix m.objects m.distinct)
    ];
    deletes = λ key m. elim (Bool-cases (fails m)) [ inl e ↦ rw e (inl refl) | inr e ↦ rw e refl ];
  }
