-- ===== src/Learning/Counts.antt =====
-- The counts of `_outcomes_by_kind` of automation/learning.py, and their order.
use Prim.Native.String.{compare}
use text.Mathlib.Text.{is_lt}
use socio_workspace.Base.{
  ℕ, ◌+◌, ◌≡◌, inl, inr, refl, sym, ap, ◌∙◌, true, false, Option, none, some, List, [], ◌∷◌, String,
  str_eq, eq_iff, arith, Bool-cases, if◌then◌else◌,
}
use socio_workspace.Base.Dict.{Dict, get, has, get-put, IsUnique, IsUnique-put}
use socio_workspace.Policy.{or_else}
use socio_workspace.Responder.{Receipt, Outcome}
use socio_workspace.Learning.{
  Stats, no_stats, resolved, attempted, count_outcome, outcomes_from, outcomes_by_kind, insert_item,
  sort_items,
}

-- An executor ran.
pub is_attempt : Option Outcome → ℕ
is_attempt none = 0
is_attempt (some ex) = 1

-- An executor ran, and did not resolve the condition.
pub is_failure : Option Outcome → ℕ
is_failure none = 0
is_failure (some ex) = if resolved ex then 0 else 1

-- The attempts of a class, and those that failed.
pub attempts_of : String → List Receipt → ℕ
attempts_of k [] = 0
attempts_of k (r ∷ decisions) =
    (if str_eq r.beacon_kind k then is_attempt r.execution else 0) + attempts_of k decisions

pub failures_of : String → List Receipt → ℕ
failures_of k [] = 0
failures_of k (r ∷ decisions) =
    (if str_eq r.beacon_kind k then is_failure r.execution else 0) + failures_of k decisions

abbrev pub stats_of : Dict Stats → String → Stats
stats_of stats k = or_else no_stats (get stats k)

attempts-count_outcome :
    (o : Option Outcome) (kind k : String) (stats : Dict Stats)
    → (stats_of (count_outcome o kind stats) k).attempts
      ≡ (stats_of stats k).attempts + (if str_eq kind k then is_attempt o else 0)
unfolding count_outcome is_attempt attempted
attempts-count_outcome none kind k stats = ground arith
attempts-count_outcome (some ex) kind k stats = elim (Bool-cases (str_eq kind k)) [
  | inl hit ↦
      rw (get-put stats kind k (attempted ex (stats_of stats kind)), hit)
        (ap (λ j. (stats_of stats j).attempts + 1) ((eq_iff kind k).0 hit))
  | inr miss ↦ rw (get-put stats kind k (attempted ex (stats_of stats kind)), miss) omega arith
]

failures-count_outcome :
    (o : Option Outcome) (kind k : String) (stats : Dict Stats)
    → (stats_of (count_outcome o kind stats) k).failures
      ≡ (stats_of stats k).failures + (if str_eq kind k then is_failure o else 0)
unfolding count_outcome is_failure attempted
failures-count_outcome none kind k stats = ground arith
failures-count_outcome (some ex) kind k stats = elim (Bool-cases (str_eq kind k)) [
  | inl hit ↦
      rw
        (
          get-put stats kind k (attempted ex (stats_of stats kind)),
          hit,
          sym ((eq_iff kind k).0 hit),
        )
        (ground arith)
  | inr miss ↦ rw (get-put stats kind k (attempted ex (stats_of stats kind)), miss) omega arith
]

attempts-outcomes_from :
    (decisions : List Receipt) (stats : Dict Stats) (k : String)
    → (stats_of (outcomes_from decisions stats) k).attempts
      ≡ (stats_of stats k).attempts + attempts_of k decisions
unfolding outcomes_from attempts_of
attempts-outcomes_from [] stats k = omega arith
attempts-outcomes_from (r ∷ decisions) stats k =
    attempts-outcomes_from decisions (count_outcome r.execution r.beacon_kind stats) k
    ∙ omega (arith, attempts-count_outcome r.execution r.beacon_kind k stats)

failures-outcomes_from :
    (decisions : List Receipt) (stats : Dict Stats) (k : String)
    → (stats_of (outcomes_from decisions stats) k).failures
      ≡ (stats_of stats k).failures + failures_of k decisions
unfolding outcomes_from failures_of
failures-outcomes_from [] stats k = omega arith
failures-outcomes_from (r ∷ decisions) stats k =
    failures-outcomes_from decisions (count_outcome r.execution r.beacon_kind stats) k
    ∙ omega (arith, failures-count_outcome r.execution r.beacon_kind k stats)

IsUnique-count_outcome :
    (o : Option Outcome) (kind : String) (stats : Dict Stats)
    → IsUnique stats
    → IsUnique (count_outcome o kind stats)
unfolding count_outcome
IsUnique-count_outcome none kind stats u = u
IsUnique-count_outcome (some ex) kind stats u =
    IsUnique-put stats kind (attempted ex (stats_of stats kind)) u

IsUnique-outcomes_from :
    (decisions : List Receipt) (stats : Dict Stats)
    → IsUnique stats
    → IsUnique (outcomes_from decisions stats)
unfolding outcomes_from
IsUnique-outcomes_from [] stats u = u
IsUnique-outcomes_from (r ∷ decisions) stats u =
    IsUnique-outcomes_from decisions (count_outcome r.execution r.beacon_kind stats)
      (IsUnique-count_outcome r.execution r.beacon_kind stats u)

has-insert_item :
    (k : String) (s : Stats) (items : Dict Stats) (j : String)
    → has (insert_item k s items) j ≡ (if str_eq k j then true else has items j)
unfolding insert_item has
has-insert_item k s [] j = refl
has-insert_item k s ((i, t) ∷ items) j = elim (Bool-cases (is_lt (compare i k))) [
  | inl first ↦ rw first (ground (arith, has-insert_item k s items j))
  | inr last ↦ rw last refl
]

get-insert_item :
    (k : String) (s : Stats) (items : Dict Stats) (j : String)
    → has items k ≡ false
    → get (insert_item k s items) j ≡ (if str_eq k j then some s else get items j)
unfolding insert_item has get
get-insert_item k s [] j h = refl
get-insert_item k s ((i, t) ∷ items) j h = elim (Bool-cases (is_lt (compare i k))) [
  | inl first ↦
      rw first (ground (arith, eq_iff i k, eq_iff k j, eq_iff i j, get-insert_item k s items j))
  | inr last ↦ rw last refl
]

IsUnique-insert_item :
    (k : String) (s : Stats) (items : Dict Stats)
    → has items k ≡ false
    → IsUnique items
    → IsUnique (insert_item k s items)
unfolding insert_item has
IsUnique-insert_item k s [] h u = (refl, tt)
IsUnique-insert_item k s ((i, t) ∷ items) h u = elim (Bool-cases (is_lt (compare i k))) [
  | inl first ↦ rw first (
    has-insert_item k s items i ∙ ground (arith, eq_iff i k, eq_iff k i, h, u.0),
    IsUnique-insert_item k s items (ground (arith, h)) u.1,
  )
  | inr last ↦ rw last (h, u)
]

has-sort_items : (items : Dict Stats) (j : String) → has (sort_items items) j ≡ has items j
unfolding sort_items has
has-sort_items [] j = refl
has-sort_items ((k, s) ∷ items) j =
    has-insert_item k s (sort_items items) j ∙ rw (has-sort_items items j) refl

pub IsUnique-sort_items : (items : Dict Stats) → IsUnique items → IsUnique (sort_items items)
unfolding sort_items
IsUnique-sort_items [] u = tt
IsUnique-sort_items ((k, s) ∷ items) u =
    IsUnique-insert_item k s (sort_items items) (has-sort_items items k ∙ u.0)
      (IsUnique-sort_items items u.1)

get-sort_items :
    (items : Dict Stats) (j : String) → IsUnique items → get (sort_items items) j ≡ get items j
unfolding sort_items get
get-sort_items [] j u = refl
get-sort_items ((k, s) ∷ items) j u =
    get-insert_item k s (sort_items items) j (has-sort_items items k ∙ u.0)
    ∙ rw (get-sort_items items j u.1) refl

abbrev pub sorted_stats : List Receipt → Dict Stats
sorted_stats decisions = sort_items (outcomes_by_kind decisions)

pub sorted_stats-IsUnique : (decisions : List Receipt) → IsUnique (sorted_stats decisions)
unfolding outcomes_by_kind
sorted_stats-IsUnique decisions =
    IsUnique-sort_items (outcomes_from decisions []) (IsUnique-outcomes_from decisions [] tt)

-- The sorted items hold the attempts and the failures of each class.
pub attempts-sorted_stats :
    (decisions : List Receipt) (k : String)
    → (stats_of (sorted_stats decisions) k).attempts ≡ attempts_of k decisions
unfolding outcomes_by_kind get
attempts-sorted_stats decisions k =
    ap (λ o. (or_else no_stats o).attempts)
      (get-sort_items (outcomes_from decisions []) k (IsUnique-outcomes_from decisions [] tt))
    ∙ attempts-outcomes_from decisions [] k
    ∙ omega arith

pub failures-sorted_stats :
    (decisions : List Receipt) (k : String)
    → (stats_of (sorted_stats decisions) k).failures ≡ failures_of k decisions
unfolding outcomes_by_kind get
failures-sorted_stats decisions k =
    ap (λ o. (or_else no_stats o).failures)
      (get-sort_items (outcomes_from decisions []) k (IsUnique-outcomes_from decisions [] tt))
    ∙ failures-outcomes_from decisions [] k
    ∙ omega arith
