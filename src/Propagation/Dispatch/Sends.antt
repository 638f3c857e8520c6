-- ===== src/Propagation/Dispatch/Sends.antt =====
-- What a run of `propagate` sends, and what it never sends.
use socio_workspace.Base.{
  ℕ, ◌≤◌, ◌≡◌, ◌⊎◌, inl, inr, refl, sym, subst, Bool, true, false, not, ◌&&◌, Option, none, some,
  List, [], ◌∷◌, String, str_eq, ltb, arith, if◌then◌else◌,
}
use socio_workspace.Propagation.{elem}
use socio_workspace.Propagation.Cascade.{Step}
use socio_workspace.Propagation.Dispatch.{
  Call, listed, created, fired, Scm, Status, dispatch, propagate_step, propagate_steps, existing_of,
  Existing, unknown, duplicate, absent, Backend, github, gitea, notify, trigger_ci, after_lookup,
  scm_dispatch,
}

-- A fact on a log that both branches of a test leave.
pub by_test :
    (P : List Call → Type 0) (b : Bool) (x y : List Call × Status)
    → (b ≡ true → P x.0)
    → (b ≡ false → P y.0)
    → P (if b then x else y).0
by_test P true x y p q = p refl
by_test P false x y p q = q refl

-- What a call `c` for the step `s` must satisfy, where `before` is the log at the call: the run
-- executes, the step is not too deep, and the call goes to the step's repository; an issue is looked
-- up or created only for an action other than `trigger_ci`, and created only right after a lookup
-- that succeeded and did not show its title; a dispatch is fired only for `trigger_ci`, on GitHub,
-- if dispatches are allowed.
module _ (scm : Scm) (allow : Bool) (execute : Bool) (dispatch_depth : ℕ) (source : String) where
  pub record Basic (s : Step) (repo : String) : Type 0 where
    pub executing : execute ≡ true
    pub shallow : s.depth ≤ dispatch_depth
    pub target : repo ≡ s.repo

  abbrev pub Permitted : Step → List Call → Call → Type 0
  Permitted s before (listed repo) = Basic s repo × (str_eq s.action "trigger_ci" ≡ false)
  Permitted s before (created repo title) =
      Basic s repo
      × (str_eq s.action "trigger_ci" ≡ false)
      × (title ≡ scm.title source s.source_rule)
      × ((log : List Call) × (titles : List String) × (before ≡ listed repo ∷ log)
          × (scm.open_titles log repo ≡ some titles)
          × (elem title titles ≡ false))
  Permitted s before (fired repo) =
      Basic s repo × (str_eq s.action "trigger_ci" ≡ true) × (allow ≡ true) × (scm.backend ≡ github)

  -- The log `after` is the log `before` with permitted calls for the steps in front.
  abbrev pub ForSome : List Step → List Call → Call → Type 0
  ForSome [] before c = ⊥
  ForSome (s ∷ steps) before c = Permitted s before c ⊎ ForSome steps before c

  pub data Sent (steps : List Step) (before : List Call) : List Call → Type 0 where
    nothing : Sent steps before before
    more :
        {log : List Call} (c : Call)
        → ForSome steps log c
        → Sent steps before log
        → Sent steps before (c ∷ log)

  Sent-tail :
      (s : Step) {steps : List Step} {a b : List Call} → Sent steps a b → Sent (s ∷ steps) a b
  Sent-tail s nothing = nothing
  Sent-tail s (more c p r) = more c (inr p) (Sent-tail s r)

  Sent-trans :
      {steps : List Step} {a b c : List Call} → Sent steps a b → Sent steps b c → Sent steps a c
  Sent-trans p nothing = p
  Sent-trans p (more c q r) = more c q (Sent-trans p r)

  existing_of_absent :
      (title : String) (answer : Option (List String))
      → existing_of title answer ≡ absent
      → (titles : List String) × (answer ≡ some titles) × (elem title titles ≡ false)
  unfolding existing_of
  existing_of_absent title none h = cc
  existing_of_absent title (some titles) h = (titles, refl, ground arith)

  Existing-cases : (x : Existing) → (x ≡ absent) ⊎ ((x ≡ unknown) ⊎ (x ≡ duplicate))
  Existing-cases absent = inl refl
  Existing-cases unknown = inr (inl refl)
  Existing-cases duplicate = inr (inr refl)

  Sent-notify :
      (s : Step) (steps : List Step) (log : List Call)
      → Basic s s.repo
      → str_eq s.action "trigger_ci" ≡ false
      → Sent (s ∷ steps) log (notify scm s.repo (scm.title source s.source_rule) log).0
  unfolding notify
  Sent-notify s steps log b t =
      let title = scm.title source s.source_rule in
      let looked : Sent (s ∷ steps) log (listed s.repo ∷ log) =
        more (listed s.repo) (inl (b, t)) nothing in
      elim (Existing-cases (existing_of title (scm.open_titles log s.repo))) [
        | inl new ↦
            let (titles, answered, fresh) =
              existing_of_absent title (scm.open_titles log s.repo) new in
            rw (new, after_lookup)
              (more (created s.repo title) (inl (b, t, refl, (log, titles, refl, answered, fresh)))
                looked)
        | inr (inl lost) ↦ rw (lost, after_lookup) looked
        | inr (inr old) ↦ rw (old, after_lookup) looked
      ]

  Sent-scm_dispatch :
      (b : Backend) (s : Step) (steps : List Step) (log : List Call)
      → scm.backend ≡ b
      → Basic s s.repo
      → str_eq s.action "trigger_ci" ≡ true
      → allow ≡ true
      → Sent (s ∷ steps) log (scm_dispatch scm s.repo log).0
  unfolding scm_dispatch
  Sent-scm_dispatch github s steps log hub b t a =
      subst
        (λ k.
          Sent (s ∷ steps) log
            (elim k as (λ _. List Call × Bool) [
              | gitea ↦ (log, false)
              | github ↦ (fired s.repo ∷ log, scm.dispatch_ok log s.repo)
            ]).0)
        (sym hub) (more (fired s.repo) (inl (b, t, a, hub)) nothing)
  Sent-scm_dispatch gitea s steps log tea b t a =
      subst
        (λ k.
          Sent (s ∷ steps) log
            (elim k as (λ _. List Call × Bool) [
              | gitea ↦ (log, false)
              | github ↦ (fired s.repo ∷ log, scm.dispatch_ok log s.repo)
            ]).0)
        (sym tea) nothing

  Sent-trigger_ci :
      (s : Step) (steps : List Step) (log : List Call)
      → Basic s s.repo
      → str_eq s.action "trigger_ci" ≡ true
      → Sent (s ∷ steps) log (trigger_ci scm allow s.repo log).0
  unfolding trigger_ci
  Sent-trigger_ci s steps log b t =
      by_test (Sent (s ∷ steps) log) (not allow) _ _ (λ refused. nothing)
        (λ allowed. Sent-scm_dispatch scm.backend s steps log refl b t (ground arith))

  Sent-step :
      (s : Step) (steps : List Step) (log : List Call)
      → Sent (s ∷ steps) log (propagate_step scm allow execute dispatch_depth source s log).0
  unfolding propagate_step dispatch
  Sent-step s steps log =
      let P = Sent (s ∷ steps) log in
      by_test P (ltb dispatch_depth s.depth) _ _ (λ deep. nothing)
        (λ near.
          by_test P execute _ _
            (λ on.
              let b : Basic s s.repo = record {
                executing = on;
                shallow = ground arith;
                target = refl;
              } in
              by_test P (str_eq s.action "trigger_ci") _ _ (Sent-trigger_ci s steps log b)
                (Sent-notify s steps log b))
            (λ off.
              by_test P (str_eq s.action "trigger_ci" && not allow) _ _ (λ _. nothing)
                (λ _. nothing)))

  -- Whatever the backend answers, every call that a run makes is permitted for one of its steps.
  pub propagate_steps-Sent :
      (steps : List Step) (log : List Call)
      → Sent steps log (propagate_steps scm allow execute dispatch_depth source steps log).0
  unfolding propagate_steps
  propagate_steps-Sent [] log = nothing
  propagate_steps-Sent (s ∷ steps) log =
      let log' = (propagate_step scm allow execute dispatch_depth source s log).0 in
      Sent-trans (Sent-step s steps log) (Sent-tail s (propagate_steps-Sent steps log'))
