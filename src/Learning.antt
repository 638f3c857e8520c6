-- ===== src/Learning.antt =====
-- automation/learning.py: what the receipts recommend to change in the policy. The threshold of the
-- failures is in units of 1/10000. The rationale, the time and the queue of recommendations are not
-- in the model.
pub mod Counts
pub mod Demoted
pub mod Advice
use Prim.Native.String.{compare}
use text.Mathlib.Text.{is_lt}
use socio_workspace.Base.{
  ℕ, suc, ◌+◌, ◌*◌, ◌-◌, Bool, true, ◌||◌, Option, none, some, List, [], ◌∷◌, String, str_eq, ltb,
  if◌then◌else◌, ◌>>=◌, get_elem?,
}
use socio_workspace.Base.Dict.{Dict, get, put}
use socio_workspace.Policy.{ResponsePolicy, law_for, verdicts, or_else}
use socio_workspace.Responder.{Receipt, Outcome}
use socio_workspace.DurableQueue.{Directory, peek_all}

-- `VERDICTS.index`; `none` is a `ValueError`.
unfoldable pub index : String → List String → Option ℕ
index v [] = none
index v (w ∷ ws) = if str_eq w v then some 0 else index v ws >>= λ i. some (suc i)

-- One step down from the place of a law.
unfoldable pub below : Option ℕ → Option String
below none = none
below (some i) = if ltb 0 i then get_elem? verdicts (i - 1) else none

unfoldable pub demote : String → Option String
demote law = below (index law verdicts)

pub record Stats : Type 0 where
  pub attempts : ℕ
  pub failures : ℕ

abbrev pub no_stats : Stats
no_stats = record { attempts = 0; failures = 0 }

unfoldable pub resolved : Outcome → Bool
resolved ex = ex.healed || (ex.proposed || ex.quarantined)

unfoldable pub attempted : Outcome → Stats → Stats
attempted ex s = record {
  attempts = s.attempts + 1;
  failures = if resolved ex then s.failures else s.failures + 1;
}

unfoldable pub count_outcome : Option Outcome → String → Dict Stats → Dict Stats
count_outcome none kind stats = stats
count_outcome (some ex) kind stats =
    put stats kind (attempted ex (or_else no_stats (get stats kind)))

unfoldable pub outcomes_from : List Receipt → Dict Stats → Dict Stats
outcomes_from [] stats = stats
outcomes_from (r ∷ decisions) stats =
    outcomes_from decisions (count_outcome r.execution r.beacon_kind stats)

unfoldable pub outcomes_by_kind : List Receipt → Dict Stats
outcomes_by_kind decisions = outcomes_from decisions []

unfoldable pub insert_item : String → Stats → Dict Stats → Dict Stats
insert_item k s [] = (k, s) ∷ []
insert_item k s ((j, t) ∷ items) =
    if is_lt (compare j k) then (j, t) ∷ insert_item k s items else (k, s) ∷ (j, t) ∷ items

-- `sorted`, for different keys
unfoldable pub sort_items : Dict Stats → Dict Stats
sort_items [] = []
sort_items ((k, s) ∷ items) = insert_item k s (sort_items items)

pub record Recommendation : Type 0 where
  pub kind_class : String
  pub current_law : String
  pub recommended_law : String
  pub attempts : ℕ
  pub failures : ℕ

unfoldable pub recommended : String → String → Stats → Option String → Option Recommendation
recommended kind law s none = none
recommended kind law s (some lower) =
    if str_eq lower law
    then none
    else some (record {
      kind_class = kind;
      current_law = law;
      recommended_law = lower;
      attempts = s.attempts;
      failures = s.failures;
    })

unfoldable pub add_some : Option Recommendation → List Recommendation → List Recommendation
add_some none recs = recs
add_some (some rec) recs = rec ∷ recs

module _ (p : ResponsePolicy) (min_samples threshold : ℕ) where
  -- The body of the loop of `analyze`.
  unfoldable pub recommend : String → Stats → Option Recommendation
  recommend kind s =
      if ltb s.attempts min_samples
      then none
      else if ltb (10000 * s.failures) (threshold * s.attempts)
      then none
      else recommended kind (law_for p kind) s (demote (law_for p kind))

  unfoldable pub recommend_each : Dict Stats → List Recommendation
  recommend_each [] = []
  recommend_each ((kind, s) ∷ items) = add_some (recommend kind s) (recommend_each items)

  unfoldable pub analyze : (String → Option Receipt) → Directory → List Recommendation
  analyze loads d = recommend_each (sort_items (outcomes_by_kind (peek_all loads d)))
