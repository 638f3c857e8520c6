-- ===== src/Responder.antt =====
-- The decisions of automation/responder.py. A beacon is a record of the fields that are read, with
-- `none` for a key that is not there; its numbers are natural and in hundredths, so that an identity
-- risk is exact in units of 1/10000, where the code rounds floats. The receipt has no texts of the
-- reason, no address and no envelope. The kernel's `meet` is a parameter: `none` is its `ValueError`.
pub mod Verdict
pub mod DefaultPolicy
pub mod Acts
pub mod Cycle
pub mod Grouped
pub mod Returns
pub mod Drained
use socio_workspace.Base.{
  ℕ, zero, suc, ◌+◌, ◌-◌, ◌*◌, Bool, true, false, not, ◌&&◌, ◌||◌, Option, none, some, List, [],
  ◌∷◌, ◌++◌, map, String, str_eq, leb, ltb, ◌==◌, if◌then◌else◌, length, ◌>>=◌,
}
use socio_workspace.Base.Dict.{Dict, get, put}
use socio_workspace.Policy.{ResponsePolicy, default_policy, law_for, action_for, or_else}

pub record Evidence : Type 0 where
  pub detector : Bool
  pub reproducible : Bool
  pub stale : Bool
  pub signal : Bool

pub record Beacon : Type 0 where
  pub kind_class : Option String
  pub system : Option String
  pub evidence : Evidence
  pub entropy_uniqueness : ℕ
  pub injection_normativity : ℕ
  pub consent_credits : ℕ
  pub plan : Dict ℕ

abbrev pub kind_of : Beacon → String
kind_of b = or_else "unknown" b.kind_class

unfoldable pub evidence_verdict : Beacon → Option String
evidence_verdict b =
    let w = b.evidence in
    if w.detector && (w.reproducible && not w.stale)
    then some "sealed"
    else if w.detector
    then some "probable"
    else if w.signal
    then some "weak"
    else none

-- max(0, 0.45 e + 0.45 i - 0.20 c)
unfoldable pub compute_iri : Beacon → ℕ
compute_iri b = (45 * b.entropy_uniqueness + 45 * b.injection_normativity) - 20 * b.consent_credits

unfoldable pub no_axes : List String → Bool
no_axes [] = true
no_axes (_ ∷ _) = false

-- The axes of the list on which the plan is at least one.
unfoldable pub axes_breached : Beacon → List String → List String
axes_breached b [] = []
axes_breached b (ax ∷ axes) =
    let rest = axes_breached b axes in
    if leb 100 (or_else 0 (get b.plan ax)) then ax ∷ rest else rest

unfoldable pub boundary_breaches : Beacon → List String → List String
boundary_breaches b axes =
    axes_breached b (if no_axes axes then default_policy.boundary_axes else axes)

-- `_EVIDENCE_WEIGHT.get(verdict, 0)`
unfoldable pub evidence_weight : Option String → ℕ
evidence_weight none = 0
evidence_weight (some v) = or_else 0 (get (("weak", 1) ∷ ("probable", 2) ∷ ("sealed", 3) ∷ []) v)

unfoldable pub total_weight : List Beacon → ℕ
total_weight [] = 0
total_weight (b ∷ beacons) = evidence_weight (evidence_verdict b) + total_weight beacons

unfoldable pub compose_evidence : List Beacon → Option String
compose_evidence beacons =
    let total = total_weight beacons in
    if leb total 0
    then none
    else if leb 3 total
    then some "sealed"
    else if total == 2
    then some "probable"
    else some "weak"

-- All breaches of all beacons; the code removes the repeated ones.
unfoldable pub breached : List Beacon → List String → List String
breached [] axes = []
breached (b ∷ beacons) axes = boundary_breaches b axes ++ breached beacons axes

-- max(..., default=0)
unfoldable pub max_iri : List Beacon → ℕ
max_iri [] = 0
max_iri (b ∷ beacons) =
    if leb (compute_iri b) (max_iri beacons) then max_iri beacons else compute_iri b

-- The first beacon of the greatest weight, from one on.
unfoldable pub primary_from : Beacon → List Beacon → Beacon
primary_from b [] = b
primary_from b (c ∷ beacons) =
    primary_from
      (if ltb (evidence_weight (evidence_verdict b)) (evidence_weight (evidence_verdict c))
        then c
        else b)
      beacons

-- What an executor or the control loop reports.
pub record Outcome : Type 0 where
  pub healed : Bool
  pub proposed : Bool
  pub quarantined : Bool
  pub converged : Bool

-- The verdict `none` is `BOTTOM`.
pub record Receipt : Type 0 where
  pub beacon_kind : String
  pub verdict : Option String
  pub action : String
  pub n_signals : ℕ
  pub execution : Option Outcome

unfoldable pub compose_receipt : Beacon → List Beacon → Option String → String → Receipt
compose_receipt primary beacons verdict action = record {
  beacon_kind = kind_of primary;
  verdict = verdict;
  action = action;
  n_signals = length beacons;
  execution = none;
}

unfoldable pub escalate : Beacon → List Beacon → Receipt
unfolding compose_receipt
escalate primary beacons = compose_receipt primary beacons none "escalate_human"

abbrev pub laws : List Beacon → ResponsePolicy → List String
laws beacons p = map (λ b. law_for p (kind_of b)) beacons

module _ (meet : List String → Option String) where
  unfoldable pub effective_law : List Beacon → ResponsePolicy → Option String
  effective_law [] p = some p.default_law
  effective_law (b ∷ beacons) p = meet (laws (b ∷ beacons) p)

  -- The fourth gate.
  unfoldable pub reasoned : Beacon → List Beacon → ResponsePolicy → String → Option Receipt
  reasoned primary beacons p ev = effective_law beacons p >>= λ law.
      meet (law ∷ ev ∷ []) >>= λ verdict.
      some (compose_receipt primary beacons (some verdict) (action_for p verdict))

  -- The gates, for a list of beacons with a first one.
  unfoldable pub decide_composed : ResponsePolicy → Beacon → List Beacon → Option Receipt
  decide_composed p b rest =
      let beacons = b ∷ rest in
      let primary = primary_from b rest in
      if not (no_axes (breached beacons p.boundary_axes))
      then some (escalate primary beacons)
      else if leb p.iri_block (max_iri beacons)
      then some (escalate primary beacons)
      else elim (compose_evidence beacons) [
        | none ↦ some (escalate primary beacons)
        | some ev ↦ reasoned primary beacons p ev
      ]
