-- ===== src/Responder/Acts.antt =====
-- `_execute` of automation/responder.py: the executor of a decision, and what it does to the receipt.
use socio_workspace.Base.{
  Bool, false, ◌&&◌, ◌||◌, Option, none, some, List, [], ◌∷◌, String, str_eq, if◌then◌else◌,
}
use socio_workspace.Base.Dict.{get}
use socio_workspace.Propagation.{elem}
use socio_workspace.Policy.{or_else}
use socio_workspace.Responder.{Beacon, Receipt, Outcome}

-- The executor of the class and the action, else that of the action.
unfoldable pub class_executor : Option String → String → Option String
class_executor none action = none
class_executor (some kind) action =
    if str_eq action "auto_fix"
    then get
        (("mirror_drift", "resync_mirror_drift")
          ∷ ("vendored_graph_drift", "reconcile_vendored_graph")
          ∷ [])
        kind
    else none

unfoldable pub action_executor : String → Option String
action_executor action =
    get
      (("propose_pr", "propose_pr")
        ∷ ("canary_fix", "canary_fix")
        ∷ ("quarantine", "quarantine")
        ∷ [])
      action

unfoldable pub executor_for : Option String → String → Option String
executor_for kind action = elim (class_executor kind action) [
  | none ↦ action_executor action
  | some fn ↦ some fn
]

unfoldable pub is_class_auto_fix : Option String → String → Bool
is_class_auto_fix kind action = elim (class_executor kind action) [
  | none ↦ false
  | some fn ↦ str_eq action "auto_fix"
]

unfoldable pub is_resolved : Outcome → Bool
is_resolved o = o.healed || (o.proposed || o.quarantined)

-- The receipt after an outcome.
unfoldable pub conclude : Outcome → Receipt → Receipt
conclude o r =
    let recorded = record r { execution = some o } in
    if is_resolved o then recorded else record recorded { action = "escalate_human" }

-- What is recorded when the executor raises.
abbrev pub failed_outcome : Outcome
failed_outcome = record { healed = false; proposed = false; quarantined = false; converged = false }

abbrev pub in_invariants : List String → Option String → Bool
in_invariants invariants none = false
in_invariants invariants (some kind) = elem kind invariants

-- The executors and the control loop act on a world. An executor that raises gives `none`.
-- `invariants` are the kinds with a convergence invariant.
module _ {W : Type 0} (call : String → Beacon → W → W × Option Outcome)
    (remediate : String → Beacon → Receipt → W → W × Outcome) (invariants : List String) where
  -- The closed loop, which is healed exactly if it converged.
  unfoldable pub run_loop : String → Beacon → Receipt → W → W × Outcome
  run_loop fn b r w = let (w', o) = remediate fn b r w in (w', record o { healed = o.converged })

  unfoldable pub run_once_only : String → Beacon → W → W × Outcome
  run_once_only fn b w = let (w', o) = call fn b w in (w', or_else failed_outcome o)

  unfoldable pub execute : Beacon → Receipt → W → W × Receipt
  unfolding run_loop run_once_only
  execute b r w = elim (executor_for b.kind_class r.action) [
    | none ↦ (w, r)
    | some fn ↦
        let (w', o) =
          if is_class_auto_fix b.kind_class r.action && in_invariants invariants b.kind_class
          then run_loop fn b r w
          else run_once_only fn b w in
        (w', conclude o r)
  ]
