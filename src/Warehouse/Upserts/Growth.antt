-- ===== src/Warehouse/Upserts/Growth.antt =====
-- The observations before and behind an insertion, and behind two steps one after the other.
use mathlib.Core.Path.{subst}
use agentic_data_engineering.Warehouse.Rows.{Values, LoadError}
use agentic_data_engineering.Warehouse.Database.{
  Observation, ObservationRow, Database, insert_observation,
}
use agentic_data_engineering.Base.{
  String, ◌≡◌, refl, sym, ap, ◌∙◌, inl, inr, Bool, true, false, not, ◌&&◌, ◌||◌, List, [], ◌∷◌,
  ◌++◌, append-nil, append_assoc, arith, Bool-cases, exists,
}
use agentic_data_engineering.Base.Equality.{◌==◌, nat_eq, string_eq, option_eq, beq_sym}
use agentic_data_engineering.Base.Exec.{Result, ok, err, Exec, bind_rule, ◌>>=◌}

module _ (V : Values) where
  -- No two observations have one event id.
  unfoldable pub one_each : List (ObservationRow V) → Bool
  one_each [] = true
  one_each (o ∷ os) = not (exists (λ x. x.values.event_id == o.values.event_id) os) && one_each os

  -- The observations are those that were there and new ones, with one event id each still.
  abbrev pub Follows : List (ObservationRow V) → List (ObservationRow V) → Type 0
  Follows xs ys =
      ((new : List (ObservationRow V)) × (ys ≡ xs ++ new))
      × (one_each xs ≡ true → one_each ys ≡ true)

  pub Follows-refl : (xs ys : List (ObservationRow V)) → ys ≡ xs → Follows xs ys
  Follows-refl xs ys h = (([], h ∙ sym (append-nil xs)), λ k. rw h k)

  pub Follows-trans :
      (xs ys zs : List (ObservationRow V)) → Follows xs ys → Follows ys zs → Follows xs zs
  Follows-trans xs ys zs x y = (
    (x.0.0 ++ y.0.0, y.0.1 ∙ ap (λ z. z ++ y.0.0) x.0.1 ∙ append_assoc xs x.0.0 y.0.0),
    λ k. y.1 (x.1 k),
  )

  pub exists-snoc :
      (id : String) (os : List (ObservationRow V)) (o : ObservationRow V)
      → exists (λ x. x.values.event_id == id) (os ++ o ∷ [])
        ≡ (exists (λ x. x.values.event_id == id) os || o.values.event_id == id)
  exists-snoc id [] o = ground arith
  exists-snoc id (x ∷ os) o = ground (arith, exists-snoc id os o)

  one_each-snoc :
      (os : List (ObservationRow V)) (o : ObservationRow V)
      → exists (λ x. x.values.event_id == o.values.event_id) os ≡ false
      → one_each os ≡ true
      → one_each (os ++ o ∷ []) ≡ true
  unfolding one_each
  one_each-snoc [] o h k = refl
  one_each-snoc (x ∷ os) o h k = ground (
    arith,
    one_each-snoc os o,
    exists-snoc x.values.event_id os o,
    beq_sym o.values.event_id x.values.event_id,
  )

  pub insert_observation-Follows :
      (o : Observation V) (d : Database V)
      → Follows d.observations (insert_observation V o d).observations
  unfolding insert_observation
  insert_observation-Follows o d =
      let row : ObservationRow V = record { id = d.serials.observation; values = o } in
      elim (Bool-cases (exists (λ x. x.values.event_id == o.event_id) d.observations)) [
        | inl e ↦ rw e (Follows-refl d.observations d.observations refl)
        | inr e ↦ rw e ((row ∷ [], refl), λ k. one_each-snoc d.observations row e k)
      ]

  -- two steps of any state that has observations
  pub bind-Follows :
      {S A B : Type 0} (obs : S → List (ObservationRow V)) (m : Exec S LoadError A)
      (k : A → Exec S LoadError B)
      → ((s : S) → Follows (obs s) (obs (m s).1))
      → ((a : A) (s : S) → Follows (obs s) (obs (k a s).1))
      → (s : S) → Follows (obs s) (obs ((m >>= k) s).1)
  bind-Follows {S} {A} {B} obs m k hm hk s =
      bind_rule m k s (λ x. Follows (obs s) (obs x.1)) (λ e t h. reached (err e, t) h)
        (λ a t h. Follows-trans (obs s) (obs t) _ (reached (ok a, t) h) (hk a t))
    where
      reached : (x : Result LoadError A × S) → m s ≡ x → Follows (obs s) (obs x.1)
      reached x h = subst (λ x. Follows (obs s) (obs x.1)) h (hm s)
