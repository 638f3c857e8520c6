-- ===== src/Propagation/Dispatch/Dry.antt =====
-- What a dry run of `propagate` of engines/propagation_engine.py predicts.
use socio_workspace.Base.{
  ℕ, ◌≡◌, inl, inr, refl, sym, ◌∙◌, Bool, true, false, not, ◌&&◌, List, [], ◌∷◌, map, String,
  str_eq, ltb, if◌then◌else◌, Bool-cases,
}
use socio_workspace.Propagation.Cascade.{Step}
use socio_workspace.Propagation.Dispatch.{
  Call, Scm, Status, blocked_no_dispatch, dispatched, failed, computed_not_sent, dispatch,
  propagate_step, propagate_steps, Existing, unknown, duplicate, absent, existing_of, notify,
  trigger_ci, after_lookup, scm_dispatch,
}

-- The two statuses that a dry run decides: too deep, and a dispatch that is not allowed.
unfoldable pub is_blocked : Status → Bool
is_blocked blocked_no_dispatch = true
is_blocked _ = false

unfoldable pub is_unsent : Status → Bool
is_unsent computed_not_sent = true
is_unsent _ = false

abbrev pub told : Status → Bool × Bool
told st = (is_blocked st, is_unsent st)

cons_eq {ℓ} : {A : Type ℓ} {x y : A} {xs ys : List A} → x ≡ y → xs ≡ ys → x ∷ xs ≡ y ∷ ys
cons_eq p q = cc

sent_status : (ok : Bool) → told (if ok then dispatched else failed) ≡ (false, false)
unfolding is_blocked is_unsent
sent_status true = refl
sent_status false = refl

lookup_status :
    (scm : Scm) (r title : String) (x : Existing) (log : List Call)
    → told (after_lookup scm r title x log).1 ≡ (false, false)
unfolding after_lookup is_blocked is_unsent
lookup_status scm r title unknown log = refl
lookup_status scm r title duplicate log = refl
lookup_status scm r title absent log = elim (Bool-cases (scm.create_ok log r title)) [
  | inl h ↦ rw h refl
  | inr h ↦ rw h refl
]

module _ (scm : Scm) (allow : Bool) (dispatch_depth : ℕ) (source : String) where
  step_told :
      (s : Step) (log log' : List Call)
      → told (propagate_step scm allow false dispatch_depth source s log).1
        ≡ told (propagate_step scm allow true dispatch_depth source s log').1
  unfolding propagate_step dispatch trigger_ci notify is_blocked is_unsent
  step_told s log log' = elim (Bool-cases (ltb dispatch_depth s.depth)) [
    | inl deep ↦ rw deep refl
    | inr near ↦ rw near (elim (Bool-cases (str_eq s.action "trigger_ci")) [
      | inl ci ↦ rw ci (elim (Bool-cases allow) [
        | inl allowed ↦ rw allowed (sym (sent_status (scm_dispatch scm s.repo log').1))
        | inr refused ↦ rw refused refl
      ])
      | inr other ↦ rw other (
          sym (
            lookup_status scm s.repo (scm.title source s.source_rule)
              (existing_of (scm.title source s.source_rule) (scm.open_titles log' s.repo)) _))
    ])
  ]

  dry_log :
      (s : Step) (log : List Call)
      → (propagate_step scm allow false dispatch_depth source s log).0 ≡ log
  unfolding propagate_step
  dry_log s log = elim (Bool-cases (ltb dispatch_depth s.depth)) [
    | inl deep ↦ rw deep refl
    | inr near ↦ rw near (elim (Bool-cases (str_eq s.action "trigger_ci" && not allow)) [
      | inl h ↦ rw h refl
      | inr h ↦ rw h refl
    ])
  ]

  steps_told :
      (steps : List Step) (log log' : List Call)
      → map told (propagate_steps scm allow false dispatch_depth source steps log).1
        ≡ map told (propagate_steps scm allow true dispatch_depth source steps log').1
  unfolding propagate_steps
  steps_told [] log log' = refl
  steps_told (s ∷ steps) log log' =
      let first = step_told s log log' in
      let later =
        steps_told steps (propagate_step scm allow false dispatch_depth source s log).0
          (propagate_step scm allow true dispatch_depth source s log').0 in
      cons_eq first later

  steps_quiet :
      (steps : List Step) (log : List Call)
      → (propagate_steps scm allow false dispatch_depth source steps log).0 ≡ log
  unfolding propagate_steps
  steps_quiet [] log = refl
  steps_quiet (s ∷ steps) log =
      steps_quiet steps (propagate_step scm allow false dispatch_depth source s log).0
      ∙ dry_log s log

  -- A dry run calls no backend, and whatever the backend would answer, it marks exactly the steps
  -- as too deep or as blocked that a run which executes marks so.
  pub propagate_steps-dry :
      (steps : List Step) (log : List Call)
      → ((propagate_steps scm allow false dispatch_depth source steps log).0 ≡ log)
        × (map told (propagate_steps scm allow false dispatch_depth source steps log).1
            ≡ map told (propagate_steps scm allow true dispatch_depth source steps log).1)
  propagate_steps-dry steps log = (steps_quiet steps log, steps_told steps log log)
