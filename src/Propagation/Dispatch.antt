-- ===== src/Propagation/Dispatch.antt =====
-- `_dispatch` and `propagate` of engines/propagation_engine.py: what a run sends to other
-- repositories. The backend is a parameter: what it answers is a function of the calls that were
-- made to it before. A call to the backend is recorded in a log, the last one first.
pub mod Sends
pub mod Once
pub mod Dry
use socio_workspace.Base.{
  ℕ, ◌+◌, Bool, true, false, not, ◌&&◌, Option, none, some, List, [], ◌∷◌, String, str_eq, ltb, any,
  if◌then◌else◌,
}
use socio_workspace.Propagation.{elem, Engine}
use socio_workspace.Propagation.Cascade.{Step, compute_cascade}

-- `issue list`, `issue create` with its title, and `repository_dispatch`.
pub data Call : Type 0 where
  listed : String → Call
  created : String → String → Call
  fired : String → Call

pub data Backend : Type 0 where
  github gitea : Backend

-- The answers: the open titles (none if the lookup failed), and whether a creation or a dispatch
-- succeeded. `title` is the f-string of the title from the source repository and the rule.
pub record Scm : Type 0 where
  pub backend : Backend
  pub open_titles : List Call → String → Option (List String)
  pub create_ok : List Call → String → String → Bool
  pub dispatch_ok : List Call → String → Bool
  pub title : String → String → String

pub data Status : Type 0 where
  blocked_no_dispatch dispatched failed skipped_lookup_failed already_open notified : Status
  computed_not_sent simulated : Status

-- `scm_dispatch`: Gitea has no equivalent, and is not called.
unfoldable pub scm_dispatch : Scm → String → List Call → List Call × Bool
scm_dispatch scm repo log = elim scm.backend [
  | gitea ↦ (log, false)
  | github ↦ (fired repo ∷ log, scm.dispatch_ok log repo)
]

unfoldable pub scm_create_issue : Scm → String → String → List Call → List Call × Bool
scm_create_issue scm repo title log = (created repo title ∷ log, scm.create_ok log repo title)

-- `_existing_issue`: `unknown` if the lookup failed.
pub data Existing : Type 0 where
  unknown duplicate absent : Existing

unfoldable pub existing_of : String → Option (List String) → Existing
existing_of title none = unknown
existing_of title (some titles) = if elem title titles then duplicate else absent

unfoldable pub existing_issue : Scm → String → String → List Call → List Call × Existing
unfolding existing_of
existing_issue scm repo title log =
    (listed repo ∷ log, existing_of title (scm.open_titles log repo))

-- The branch of `_dispatch` for `trigger_ci`.
unfoldable pub trigger_ci : Scm → Bool → String → List Call → List Call × Status
unfolding scm_dispatch
trigger_ci scm allow repo log =
    if not allow
    then (log, blocked_no_dispatch)
    else let (log', ok) = scm_dispatch scm repo log in (log', if ok then dispatched else failed)

unfoldable pub after_lookup : Scm → String → String → Existing → List Call → List Call × Status
unfolding scm_create_issue
after_lookup scm repo title unknown log = (log, skipped_lookup_failed)
after_lookup scm repo title duplicate log = (log, already_open)
after_lookup scm repo title absent log =
    let (log', ok) = scm_create_issue scm repo title log in (log', if ok then notified else failed)

-- The branch of `_dispatch` for every other action.
unfoldable pub notify : Scm → String → String → List Call → List Call × Status
unfolding existing_issue after_lookup
notify scm repo title log =
    let (log', existing) = existing_issue scm repo title log in
    after_lookup scm repo title existing log'

unfoldable pub dispatch : Scm → Bool → String → Step → List Call → List Call × Status
unfolding trigger_ci notify
dispatch scm allow source s log =
    if str_eq s.action "trigger_ci"
    then trigger_ci scm allow s.repo log
    else notify scm s.repo (scm.title source s.source_rule) log

-- The body of the loop of `propagate`.
unfoldable pub propagate_step :
    Scm → Bool → Bool → ℕ → String → Step → List Call → List Call × Status
unfolding dispatch
propagate_step scm allow execute dispatch_depth source s log =
    if ltb dispatch_depth s.depth
    then (log, computed_not_sent)
    else if execute
    then dispatch scm allow source s log
    else if str_eq s.action "trigger_ci" && not allow
    then (log, blocked_no_dispatch)
    else (log, simulated)

unfoldable pub propagate_steps :
    Scm → Bool → Bool → ℕ → String → List Step → List Call → List Call × List Status
unfolding propagate_step
propagate_steps scm allow execute dispatch_depth source [] log = (log, [])
propagate_steps scm allow execute dispatch_depth source (s ∷ steps) log =
    let (log', status) = propagate_step scm allow execute dispatch_depth source s log in
    let (log'', statuses) = propagate_steps scm allow execute dispatch_depth source steps log' in
    (log'', status ∷ statuses)

unfoldable pub is_failed : Status → Bool
is_failed failed = true
is_failed _ = false

-- What `propagate` logs as the event's status; `skipped` is a ref that is not main.
pub data RunStatus : Type 0 where
  skipped no_rule run_failed executed dry_run : RunStatus

pub record Report : Type 0 where
  pub status : RunStatus
  pub actions : List Status
  pub exit_code : ℕ

unfoldable pub report : Bool → List Status → Report
unfolding is_failed
report execute statuses =
    if any is_failed statuses
    then record { status = run_failed; actions = statuses; exit_code = 1 }
    else record {
      status = if execute then executed else dry_run;
      actions = statuses;
      exit_code = 0;
    }

unfoldable pub propagate_cascade :
    Scm → Bool → Bool → ℕ → String → List Step → List Call → List Call × Report
unfolding propagate_steps report
propagate_cascade scm allow execute dispatch_depth source [] log =
    (log, record { status = no_rule; actions = []; exit_code = 0 })
propagate_cascade scm allow execute dispatch_depth source (s ∷ steps) log =
    let (log', statuses) =
      propagate_steps scm allow execute dispatch_depth source (s ∷ steps) log in
    (log', report execute statuses)

-- `propagate`, for a normalised source; `is_main` is `ref.endswith("/main")`. `none` would mean
-- that the cascade ran out of fuel.
unfoldable pub propagate :
    Scm → Bool → Bool → ℕ → Engine → ℕ → Bool → String → List Call → Option (List Call × Report)
unfolding propagate_cascade
propagate scm allow execute dispatch_depth engine max_depth is_main source log =
    if not is_main
    then some (log, record { status = skipped; actions = []; exit_code = 0 })
    else elim (compute_cascade engine source max_depth) [
      | none ↦ none
      | some steps ↦ some (propagate_cascade scm allow execute dispatch_depth source steps log)
    ]
