-- ===== src/Ingestion/Runner/Statuses.antt =====
-- The statuses of the sources: what a change of one does to the others and to the sums.
use agentic_data_engineering.Ingestion.Runner.{SourceStatus, update_status, new_sources, new_status}
use agentic_data_engineering.Base.{
  ℕ, ◌+◌, String, ◌≡◌, refl, inl, inr, true, false, List, [], ◌∷◌, arith, is_some, All,
}
use agentic_data_engineering.Base.Equality.{◌==◌, nat_eq, string_eq, option_eq, beq_refl, beq_cases}
use agentic_data_engineering.Base.Dict.{Dict, get, put, get-put}

-- The sum of a count over the statuses.
unfoldable pub sum_over : (SourceStatus → ℕ) → Dict String SourceStatus → ℕ
sum_over f [] = 0
sum_over f ((k, s) ∷ d) = f s + sum_over f d

pub sum_over-update_status :
    (f : SourceStatus → ℕ) (name : String) (g : SourceStatus → SourceStatus) (n : ℕ)
    (d : Dict String SourceStatus)
    → ((s : SourceStatus) → f (g s) ≡ f s + n)
    → is_some (get name d) ≡ true
    → sum_over f (update_status name g d) ≡ sum_over f d + n
unfolding sum_over update_status get
sum_over-update_status f name g n [] h k = absurd (ground arith)
sum_over-update_status f name g n ((j, s) ∷ d) h k =
    ground (arith, sum_over-update_status f name g n d h, h s)

pub get-update_status :
    (k name : String) (g : SourceStatus → SourceStatus) (d : Dict String SourceStatus)
    → is_some (get k (update_status name g d)) ≡ is_some (get k d)
unfolding update_status get
get-update_status k name g [] = refl
get-update_status k name g ((j, s) ∷ d) = ground (arith, get-update_status k name g d)

pub get-update_status_other :
    (k name : String) (g : SourceStatus → SourceStatus) (d : Dict String SourceStatus)
    → (name == k) ≡ false
    → get k (update_status name g d) ≡ get k d
unfolding update_status get
get-update_status_other k name g [] h = refl
get-update_status_other k name g ((j, s) ∷ d) h = elim (beq_cases j name) [
  | inl e ↦ rw (e, beq_refl name, h) refl
  | inr e ↦ ground (arith, get-update_status_other k name g d)
]

pub get-new_sources :
    (k : String) (names : List String) (d : Dict String SourceStatus)
    → is_some (get k d) ≡ true
    → is_some (get k (new_sources names d)) ≡ true
unfolding new_sources
get-new_sources k [] d h = h
get-new_sources k (name ∷ names) d h =
    get-new_sources k names _ (ground (arith, get-put name k (new_status name) d))

-- Each name has a status.
abbrev pub AllKnown : List String → Dict String SourceStatus → Type 0
AllKnown names d = All (λ k. is_some (get k d) ≡ true) names

pub new_sources-AllKnown :
    (names : List String) (d : Dict String SourceStatus) → AllKnown names (new_sources names d)
unfolding new_sources
new_sources-AllKnown [] d = tt
new_sources-AllKnown (name ∷ names) d = (
  get-new_sources name names _
      (ground (arith, get-put name name (new_status name) d, beq_refl name)),
  new_sources-AllKnown names _,
)

sum_over-put :
    (f : SourceStatus → ℕ) (k : String) (s : SourceStatus) (d : Dict String SourceStatus)
    → f s ≡ 0
    → sum_over f d ≡ 0
    → sum_over f (put k s d) ≡ 0
unfolding sum_over put
sum_over-put f k s [] h z = omega arith
sum_over-put f k s ((j, t) ∷ d) h z = ground (arith, sum_over-put f k s d h)

pub sum_over-new_sources :
    (f : SourceStatus → ℕ) (names : List String) (d : Dict String SourceStatus)
    → ((name : String) → f (new_status name) ≡ 0)
    → sum_over f d ≡ 0
    → sum_over f (new_sources names d) ≡ 0
unfolding new_sources
sum_over-new_sources f [] d h z = z
sum_over-new_sources f (name ∷ names) d h z =
    sum_over-new_sources f names _ h (sum_over-put f name (new_status name) d (h name) z)
