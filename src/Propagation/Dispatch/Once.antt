-- ===== src/Propagation/Dispatch/Once.antt =====
-- How often a run of `propagate` of engines/propagation_engine.py writes to a repository, and what a
-- dry run predicts.
use socio_workspace.Base.{
  ℕ, ◌+◌, ◌≤◌, ◌≡◌, inl, inr, refl, sym, subst, Bool, true, false, not, ◌&&◌, some, List, [], ◌∷◌,
  String, str_eq, eq_iff, ltb, arith, if◌then◌else◌, Bool-cases,
}
use socio_workspace.Propagation.{elem, Engine}
use socio_workspace.Propagation.Cascade.{Step}
use socio_workspace.Propagation.Cascade.Invariant.{repos, Distinct}
use socio_workspace.Propagation.Cascade.Correct.{compute_cascade-IsCascade}
use socio_workspace.Propagation.Dispatch.{
  Call, listed, created, fired, Scm, dispatch, propagate_step, propagate_steps, propagate_cascade,
  propagate, Report, Existing, unknown, duplicate, absent, existing_of, Backend, github, gitea,
  notify, trigger_ci, after_lookup, scm_dispatch,
}
use socio_workspace.Propagation.Dispatch.Sends.{by_test}

-- 1 if `b` is the repository `a`
abbrev one_at : String → String → ℕ
one_at a b = if str_eq a b then 1 else 0

-- The number of issues created and dispatches fired for a repository.
unfoldable pub sent_to : String → List Call → ℕ
sent_to repo [] = 0
sent_to repo (listed r ∷ log) = sent_to repo log
sent_to repo (created r title ∷ log) = one_at repo r + sent_to repo log
sent_to repo (fired r ∷ log) = one_at repo r + sent_to repo log

-- How often a repository stands in a list.
unfoldable count : String → List String → ℕ
count repo [] = 0
count repo (r ∷ rs) = one_at repo r + count repo rs

count_absent : (repo : String) (rs : List String) → elem repo rs ≡ false → count repo rs ≡ 0
unfolding count elem
count_absent repo [] h = refl
count_absent repo (r ∷ rs) h = let later = count_absent repo rs in ground (arith, later, h)

count-Distinct : (repo : String) (rs : List String) → Distinct rs → count repo rs ≤ 1
unfolding count
count-Distinct repo [] d = omega arith
count-Distinct repo (r ∷ rs) d = elim (Bool-cases (str_eq repo r)) [
  | inl same ↦
      let gone : count repo rs ≡ 0 =
        subst (λ x. count x rs ≡ 0) (sym ((eq_iff repo r).0 same)) (count_absent r rs d.0) in
      rw (same, gone) (omega arith)
  | inr other ↦ let few = count-Distinct repo rs d.1 in rw other (omega (arith, few))
]

module _ (scm : Scm) (allow : Bool) (execute : Bool) (dispatch_depth : ℕ) (source : String)
    (repo : String) where
  dispatch_sent :
      (b : Backend) (r : String) (log : List Call)
      → scm.backend ≡ b
      → sent_to repo (scm_dispatch scm r log).0 ≤ one_at repo r + sent_to repo log
  unfolding scm_dispatch sent_to
  dispatch_sent github r log hub = rw hub (omega arith)
  dispatch_sent gitea r log tea = rw tea (omega arith)

  lookup_sent :
      (x : Existing) (r : String) (title : String) (log : List Call)
      → sent_to repo (after_lookup scm r title x (listed r ∷ log)).0
        ≤ one_at repo r + sent_to repo log
  unfolding after_lookup sent_to
  lookup_sent unknown r title log = omega arith
  lookup_sent duplicate r title log = omega arith
  lookup_sent absent r title log = omega arith

  step_sent :
      (s : Step) (log : List Call)
      → sent_to repo (propagate_step scm allow execute dispatch_depth source s log).0
        ≤ one_at repo s.repo + sent_to repo log
  unfolding propagate_step dispatch trigger_ci notify
  step_sent s log =
      let P : List Call → Type 0 = λ l. sent_to repo l ≤ one_at repo s.repo + sent_to repo log in
      let title = scm.title source s.source_rule in
      let unsent : P log = omega arith in
      by_test P (ltb dispatch_depth s.depth) _ _ (λ _. unsent)
        (λ _.
          by_test P execute _ _
            (λ _.
              by_test P (str_eq s.action "trigger_ci") _ _
                (λ _.
                  by_test P (not allow) _ _ (λ _. unsent)
                    (λ _. dispatch_sent scm.backend s.repo log refl))
                (λ _.
                  lookup_sent (existing_of title (scm.open_titles log s.repo)) s.repo title log))
            (λ _.
              by_test P (str_eq s.action "trigger_ci" && not allow) _ _ (λ _. unsent)
                (λ _. unsent)))

  steps_sent :
      (steps : List Step) (log : List Call)
      → sent_to repo (propagate_steps scm allow execute dispatch_depth source steps log).0
        ≤ count repo (repos steps) + sent_to repo log
  unfolding propagate_steps count
  steps_sent [] log = omega arith
  steps_sent (s ∷ steps) log =
      let log' = (propagate_step scm allow execute dispatch_depth source s log).0 in
      let first = step_sent s log in let rest = steps_sent steps log' in omega (arith, first, rest)

  cascade_sent :
      (steps : List Step) (log : List Call)
      → sent_to repo (propagate_cascade scm allow execute dispatch_depth source steps log).0
        ≤ count repo (repos steps) + sent_to repo log
  unfolding propagate_cascade
  cascade_sent [] log = omega arith
  cascade_sent (s ∷ steps) log = steps_sent (s ∷ steps) log

-- A run for a change on main ends with a report for every backend, and whatever the backend answers,
-- it creates issues and fires dispatches at most once in total for each repository, and never for
-- the changed one.
pub propagate-once :
    (scm : Scm) (allow : Bool) (execute : Bool) (dispatch_depth : ℕ) (engine : Engine)
    (max_depth : ℕ) (source : String) (log : List Call) (repo : String)
    → (log' : List Call) × (r : Report) × (propagate scm allow execute dispatch_depth engine
          max_depth true source log
        ≡ some (log', r))
      × (sent_to repo log' ≤ sent_to repo log + 1)
      × (sent_to source log' ≤ sent_to source log)
unfolding propagate
propagate-once scm allow execute dispatch_depth engine max_depth source log repo =
    let (steps, found, ok) = compute_cascade-IsCascade engine source max_depth in
    let (log', r) = propagate_cascade scm allow execute dispatch_depth source steps log in
    let bound = cascade_sent scm allow execute dispatch_depth source repo steps log in
    let own = cascade_sent scm allow execute dispatch_depth source source steps log in
    let few = count-Distinct repo (repos steps) ok.distinct.1 in
    let never = count_absent source (repos steps) ok.distinct.0 in
    (log', r, rw found refl, omega (arith, bound, few), omega (arith, own, never))
