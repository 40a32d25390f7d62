-- ===== src/Health/Evaluator/Empties.antt =====
-- The empty fetches in a row, as the tracker and the evaluator count them.
use agentic_data_engineering.Health.Tracker.{
  Floats, Config, FetchOutcome, Tracker, new_tracker, record_fetch_success, record_fetch_failure,
}
use agentic_data_engineering.Health.Tracker.History.{
  Report, fetched, failed, tell, tell_all, outcome_of, add_outcome-same,
}
use agentic_data_engineering.Health.Evaluator.{
  RawOutcome, outcome_of_raw, build_outcomes, reversed, count_until, count_consecutive_empty,
}
use agentic_data_engineering.Base.{
  ℕ, suc, ◌≤◌, String, ◌≡◌, refl, sym, ap, ◌∙◌, inl, inr, Bool, ◌&&◌, List, [], ◌∷◌, ◌++◌, map,
  append-nil, append_assoc, arith, if◌then◌else◌, Bool-cases, select,
}
use agentic_data_engineering.Base.Equality.{◌==◌, nat_eq, string_eq, option_eq}

-- How many elements pass a test before the first that does not.
unfoldable pub count_while : {A : Type 0} → (A → Bool) → List A → ℕ
count_while p [] = 0
count_while p (x ∷ xs) = let rest = count_while p xs in if p x then suc rest else 0

reversed-snoc : {A : Type 0} (xs : List A) (x : A) → reversed (xs ++ x ∷ []) ≡ x ∷ reversed xs
unfolding reversed
reversed-snoc [] x = refl
reversed-snoc (y ∷ xs) x = ap (λ z. z ++ y ∷ []) (reversed-snoc xs x)

module _ (fl : Floats) where
  -- a fetch that succeeded, and one that brought no event
  abbrev pub succeeded : FetchOutcome fl → Bool
  succeeded o = o.success

  abbrev pub brought_none : FetchOutcome fl → Bool
  brought_none o = o.events_emitted == 0

  -- The empty fetches at the end of a log, passing over those that failed.
  unfoldable pub empties : List (FetchOutcome fl) → ℕ
  unfolding count_while reversed
  empties log = count_while brought_none (select succeeded (reversed log))

  -- the count after one more fetch
  unfoldable pub counted : Report → ℕ → ℕ
  counted (fetched events records malformed) n = if events == 0 then suc n else 0
  counted (failed reason) n = n

  tell-consecutive_empty :
      (r : Report) (t : Tracker fl)
      → (tell fl r t).consecutive_empty ≡ counted r t.consecutive_empty
  unfolding tell counted record_fetch_success record_fetch_failure outcome_of
  tell-consecutive_empty (fetched events records malformed) t = elim (Bool-cases (events == 0)) [
    | inl e ↦
        let same = (add_outcome-same fl (outcome_of fl (fetched events records malformed)) t).1 in
        rw e (omega arith)
    | inr e ↦ rw e refl
  ]
  tell-consecutive_empty (failed reason) t = (add_outcome-same fl _ t).1

  empties-snoc :
      (log : List (FetchOutcome fl)) (r : Report)
      → empties (log ++ outcome_of fl r ∷ []) ≡ counted r (empties log)
  unfolding empties counted outcome_of count_while
  empties-snoc log (fetched events records malformed) =
      rw (reversed-snoc log (outcome_of fl (fetched events records malformed))) refl
  empties-snoc log (failed reason) = rw (reversed-snoc log (outcome_of fl (failed reason))) refl

  tell_all-empties_from :
      (rs : List Report) (log : List (FetchOutcome fl)) (t : Tracker fl)
      → t.consecutive_empty ≡ empties log
      → (tell_all fl rs t).consecutive_empty ≡ empties (log ++ map (outcome_of fl) rs)
  unfolding tell_all
  tell_all-empties_from [] log t h = h ∙ ap empties (sym (append-nil log))
  tell_all-empties_from (r ∷ rs) log t h =
      tell_all-empties_from rs (log ++ outcome_of fl r ∷ []) (tell fl r t)
        (tell-consecutive_empty r t ∙ ap (counted r) h ∙ sym (empties-snoc log r))
      ∙ ap empties (append_assoc log (outcome_of fl r ∷ []) (map (outcome_of fl) rs))

  -- The count of a new tracker that is told of any fetches is that of the empty ones since the last
  -- that brought an event: the fetches that failed in between do not end it.
  pub consecutive_empty-tell_all :
      (config : Config fl) (n : ℕ) (rs : List Report)
      → (tell_all fl rs (new_tracker fl config n)).consecutive_empty
        ≡ empties (map (outcome_of fl) rs)
  unfolding new_tracker empties reversed count_while
  consecutive_empty-tell_all config n rs =
      tell_all-empties_from rs [] (new_tracker fl config n) refl

  abbrev both : FetchOutcome fl → Bool
  both o = succeeded o && brought_none o

  count_while-select :
      (os : List (FetchOutcome fl))
      → count_while both os ≤ count_while brought_none (select succeeded os)
  unfolding count_while
  count_while-select [] = omega arith
  count_while-select (o ∷ os) = ground (arith, count_while-select os)

  module _ (lower : String → String) (Time : Type 0) where
    count_until-count_while :
        (raws : List (RawOutcome fl lower Time))
        → count_until fl lower Time raws ≡ count_while both (build_outcomes fl lower Time raws)
    unfolding count_until count_while build_outcomes outcome_of_raw
    count_until-count_while [] = refl
    count_until-count_while (raw ∷ raws) = ground (arith, count_until-count_while raws)

    build_outcomes-append :
        (xs ys : List (RawOutcome fl lower Time))
        → build_outcomes fl lower Time (xs ++ ys)
          ≡ build_outcomes fl lower Time xs ++ build_outcomes fl lower Time ys
    unfolding build_outcomes
    build_outcomes-append [] ys = refl
    build_outcomes-append (x ∷ xs) ys =
        ap (λ z. outcome_of_raw fl lower Time x ∷ z) (build_outcomes-append xs ys)

    build_outcomes-reversed :
        (raws : List (RawOutcome fl lower Time))
        → build_outcomes fl lower Time (reversed raws)
          ≡ reversed (build_outcomes fl lower Time raws)
    unfolding build_outcomes reversed
    build_outcomes-reversed [] = refl
    build_outcomes-reversed (x ∷ xs) =
        build_outcomes-append (reversed xs) (x ∷ [])
        ∙ ap (λ z. z ++ outcome_of_raw fl lower Time x ∷ []) (build_outcomes-reversed xs)

    -- Of the fetches that a new tracker is told of, the evaluator, which reads the same outcomes, counts
    -- no more empty ones in a row than the tracker.
    pub count_consecutive_empty_le :
        (config : Config fl) (n : ℕ) (rs : List Report) (raws : List (RawOutcome fl lower Time))
        → build_outcomes fl lower Time raws ≡ map (outcome_of fl) rs
        → count_consecutive_empty fl lower Time raws
          ≤ (tell_all fl rs (new_tracker fl config n)).consecutive_empty
    unfolding count_consecutive_empty empties
    count_consecutive_empty_le config n rs raws h =
        rw
          (
            consecutive_empty-tell_all config n rs,
            sym h,
            count_until-count_while (reversed raws),
            build_outcomes-reversed raws,
          )
          (count_while-select (reversed (build_outcomes fl lower Time raws)))
