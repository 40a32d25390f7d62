-- ===== src/Health/Tracker/History.antt =====
-- What a tracker keeps of the fetches that it was told of.
use agentic_data_engineering.Health.Tracker.{
  Floats, Config, FetchOutcome, Tracker, new_tracker, last_of, trim_history, add_outcome,
  record_fetch_success, record_fetch_failure,
}
use agentic_data_engineering.Base.{
  ℕ, zero, suc, ◌+◌, ◌-◌, ◌≤◌, ◌<◌, String, ◌≡◌, refl, sym, ap, ◌∙◌, inl, inr, true, false, none,
  some, List, [], ◌∷◌, ◌++◌, map, append-nil, append_assoc, arith, ltb, Bool-cases, length, drop,
  length-append, length-drop,
}
use agentic_data_engineering.Base.Equality.{◌==◌, nat_eq, string_eq, option_eq}

module _ {A : Type 0} where
  drop-append : (k : ℕ) (xs ys : List A) → k ≤ length xs → drop k (xs ++ ys) ≡ drop k xs ++ ys
  drop-append zero xs ys h = refl
  drop-append (suc k) [] ys h = absurd (omega arith)
  drop-append (suc k) (x ∷ xs) ys h = drop-append k xs ys (omega arith)

  drop_nil : (k : ℕ) → drop {A = A} k [] ≡ []
  drop_nil zero = refl
  drop_nil (suc k) = refl

  drop-drop : (k j m : ℕ) (xs : List A) → m ≡ j + k → drop k (drop j xs) ≡ drop m xs
  drop-drop k zero m xs h = let p : k ≡ m = omega arith in ap (λ z. drop z xs) p
  drop-drop k (suc j) m [] h = drop_nil k ∙ sym (drop_nil m)
  drop-drop k (suc j) zero (x ∷ xs) h = absurd (omega arith)
  drop-drop k (suc j) (suc m) (x ∷ xs) h = drop-drop k j m xs (omega arith)

  last_of_short : (n : ℕ) (xs : List A) → length xs ≤ n → last_of n xs ≡ xs
  unfolding last_of
  last_of_short zero xs h = refl
  last_of_short (suc n) xs h = let p : length xs - suc n ≡ 0 = omega arith in ap (λ z. drop z xs) p

  -- the last elements of a list and of a list that is one longer
  last_of-snoc :
      (n : ℕ) (xs : List A) (x : A) → last_of n (last_of n xs ++ x ∷ []) ≡ last_of n (xs ++ x ∷ [])
  unfolding last_of
  last_of-snoc zero xs x = refl
  last_of-snoc (suc n) xs x =
      let k : ℕ = length xs - suc n in
      let one = length-append xs (x ∷ []) in
      let two = length-append (drop k xs) (x ∷ []) in
      let three = length-drop k xs in
      ap (λ ys. drop (length ys - suc n) ys) (sym (drop-append k xs (x ∷ []) (omega arith)))
      ∙ drop-drop _ k _ (xs ++ x ∷ []) (omega (arith, length-drop k (xs ++ x ∷ [])))

  length-last_of : (n : ℕ) (xs : List A) → 0 < n → length (last_of n xs) ≤ n
  unfolding last_of
  length-last_of zero xs h = absurd (omega arith)
  length-last_of (suc n) xs h = omega (arith, length-drop (length xs - suc n) xs)

-- What a tracker is told of a fetch.
pub data Report : Type 0 where
  fetched : ℕ → ℕ → ℕ → Report
  failed : String → Report

module _ (fl : Floats) where
  unfoldable pub tell : Report → Tracker fl → Tracker fl
  tell (fetched events records malformed) = record_fetch_success fl events records malformed
  tell (failed reason) = record_fetch_failure fl reason

  unfoldable pub tell_all : List Report → Tracker fl → Tracker fl
  unfolding tell
  tell_all [] t = t
  tell_all (r ∷ rs) t = tell_all rs (tell r t)

  unfoldable pub outcome_of : Report → FetchOutcome fl
  outcome_of (fetched events records malformed) = record {
    success = true;
    events_emitted = events;
    total_records = records;
    malformed_count = malformed;
    failure_reason = none;
  }
  outcome_of (failed reason) = record {
    success = false;
    events_emitted = 0;
    total_records = 0;
    malformed_count = 0;
    failure_reason = some reason;
  }

  trimmed : (t : Tracker fl) → (trim_history fl t).outcomes ≡ last_of t.max_history t.outcomes
  unfolding trim_history
  trimmed t = elim (Bool-cases (ltb t.max_history (length t.outcomes))) [
    | inl e ↦ rw e refl
    | inr e ↦ rw e (sym (last_of_short t.max_history t.outcomes (ground arith)))
  ]

  -- Adding an outcome changes the outcomes only.
  pub add_outcome-same :
      (o : FetchOutcome fl) (t : Tracker fl)
      → ((add_outcome fl o t).max_history ≡ t.max_history)
        × ((add_outcome fl o t).consecutive_empty ≡ t.consecutive_empty)
  unfolding add_outcome trim_history
  add_outcome-same o t = elim (Bool-cases (ltb t.max_history (length (t.outcomes ++ o ∷ [])))) [
    | inl e ↦ rw e (refl, refl)
    | inr e ↦ rw e (refl, refl)
  ]

  add_outcome-outcomes :
      (o : FetchOutcome fl) (t : Tracker fl)
      → (add_outcome fl o t).outcomes ≡ last_of t.max_history (t.outcomes ++ o ∷ [])
  unfolding add_outcome
  add_outcome-outcomes o t = trimmed (record t { outcomes = t.outcomes ++ o ∷ [] })

  -- What being told of a fetch does to the tracker.
  tell-same :
      (r : Report) (t : Tracker fl)
      → ((tell r t).max_history ≡ t.max_history)
        × ((tell r t).outcomes ≡ last_of t.max_history (t.outcomes ++ outcome_of r ∷ []))
  unfolding tell record_fetch_success record_fetch_failure outcome_of
  tell-same (fetched events records malformed) t = elim (Bool-cases (events == 0)) [
    | inl e ↦ rw e ((add_outcome-same _ t).0, add_outcome-outcomes _ t)
    | inr e ↦ rw e ((add_outcome-same _ t).0, add_outcome-outcomes _ t)
  ]
  tell-same (failed reason) t = ((add_outcome-same _ t).0, add_outcome-outcomes _ t)

  tell_all-outcomes_from :
      (rs : List Report) (log : List (FetchOutcome fl)) (t : Tracker fl)
      → t.outcomes ≡ last_of t.max_history log
      → (tell_all rs t).outcomes ≡ last_of t.max_history (log ++ map outcome_of rs)
  unfolding tell_all
  tell_all-outcomes_from [] log t h = h ∙ ap (λ x. last_of t.max_history x) (sym (append-nil log))
  tell_all-outcomes_from (r ∷ rs) log t h =
      let same = tell-same r t in
      let next : (tell r t).outcomes ≡ last_of (tell r t).max_history (log ++ outcome_of r ∷ []) =
        same.1
        ∙ ap (λ x. last_of t.max_history (x ++ outcome_of r ∷ [])) h
        ∙ last_of-snoc t.max_history log (outcome_of r)
        ∙ ap (λ n. last_of n (log ++ outcome_of r ∷ [])) (sym same.0) in
      tell_all-outcomes_from rs (log ++ outcome_of r ∷ []) (tell r t) next
      ∙ ap (λ n. last_of n ((log ++ outcome_of r ∷ []) ++ map outcome_of rs)) same.0
      ∙ ap (λ x. last_of t.max_history x) (append_assoc log (outcome_of r ∷ []) (map outcome_of rs))

  -- A new tracker that is told of any fetches holds the outcomes of the last ones, as many as its
  -- history allows, in their order; with a history of 0 it holds them all.
  pub tell_all-outcomes :
      (config : Config fl) (n : ℕ) (rs : List Report)
      → (tell_all rs (new_tracker fl config n)).outcomes ≡ last_of n (map outcome_of rs)
  unfolding new_tracker last_of
  tell_all-outcomes config zero rs = tell_all-outcomes_from rs [] (new_tracker fl config 0) refl
  tell_all-outcomes config (suc n) rs =
      tell_all-outcomes_from rs [] (new_tracker fl config (suc n)) (sym (drop_nil _))

  -- With a history of at least 1, the history is never longer than it allows.
  pub length-tell_all :
      (config : Config fl) (n : ℕ) (rs : List Report)
      → 0 < n
      → length (tell_all rs (new_tracker fl config n)).outcomes ≤ n
  length-tell_all config n rs h =
      rw (tell_all-outcomes config n rs) (length-last_of n (map outcome_of rs) h)
