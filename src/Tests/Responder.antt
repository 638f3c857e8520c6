-- ===== src/Tests/Responder.antt =====
-- Runs of automation/responder.py with a least verdict by search.
use socio_workspace.Base.{
  ℕ, ◌+◌, ◌≤◌, ◌≡◌, ◌≢◌, some-inj, inl, inr, refl, sym, subst, true, false, Option, none, some,
  List, [], ◌∷◌, String, str_eq, eq_refl, arith, if◌then◌else◌, Bool-cases, All, leb,
}
use socio_workspace.Base.Dict.{get}
use socio_workspace.Propagation.{elem}
use socio_workspace.DurableQueue.{qsize, pending_paths, sort_paths, insert_path, before}
use socio_workspace.Policy.{default_policy, law_for, action_for}
use socio_workspace.Responder.{
  Beacon, Receipt, Outcome, decide_composed, breached, boundary_breaches, axes_breached, no_axes,
  max_iri, compute_iri, compose_evidence, total_weight, evidence_weight, evidence_verdict, reasoned,
  effective_law, compose_receipt, primary_from,
}
use socio_workspace.Responder.Acts.{failed_outcome}
use socio_workspace.Responder.Verdict.{rank, rank_in, IsMeet, Decides, decide_composed-Decides}
use socio_workspace.Responder.DefaultPolicy.{default_valid, IsFixable, auto_fix-IsFixable}
use socio_workspace.Responder.Cycle.{Incoming, beacon, ill_formed, Inbox, run_once}
use socio_workspace.Responder.Drained.{IsReadable}
use socio_workspace.Responder.Returns.{IsRun, run_once-returns}
use socio_workspace.Tests.DurableQueue.{spoiled}

lower : String → String → String
lower v w = if leb (rank v) (rank w) then v else w

least_from : String → List String → String
least_from v [] = v
least_from v (w ∷ vs) = least_from (lower v w) vs

abbrev least : List String → Option String
least [] = none
least (v ∷ vs) = some (least_from v vs)

abbrev IsLeast : String → String → List String → Type 0
IsLeast m v vs = (elem m (v ∷ vs) ≡ true) × All (λ u. rank m ≤ rank u) (v ∷ vs)

keep_first :
    (m v w : String) (vs : List String) → rank v ≤ rank w → IsLeast m v vs → IsLeast m v (w ∷ vs)
unfolding elem
keep_first m v w vs h (e, (low, a)) = (ground (arith, e), (low, (omega (arith, low, h), a)))

keep_second :
    (m v w : String) (vs : List String) → rank w ≤ rank v → IsLeast m w vs → IsLeast m v (w ∷ vs)
unfolding elem
keep_second m v w vs h (e, (low, a)) = (ground (arith, e), (omega (arith, low, h), (low, a)))

least_from-IsLeast : (v : String) (vs : List String) → IsLeast (least_from v vs) v vs
unfolding elem least_from lower
least_from-IsLeast v [] = (rw (eq_refl v) refl, (omega arith, tt))
least_from-IsLeast v (w ∷ vs) = elim (Bool-cases (leb (rank v) (rank w))) [
  | inl first ↦
      let e : lower v w ≡ v = rw first refl in
      subst (λ x. IsLeast (least_from x vs) v (w ∷ vs)) (sym e)
        (keep_first (least_from v vs) v w vs (ground arith) (least_from-IsLeast v vs))
  | inr second ↦
      let e : lower v w ≡ w = rw second refl in
      subst (λ x. IsLeast (least_from x vs) v (w ∷ vs)) (sym e)
        (keep_second (least_from w vs) v w vs (ground arith) (least_from-IsLeast w vs))
]

is_meet : IsMeet least
is_meet v vs a = let (e, low) = least_from-IsLeast v vs in (least_from v vs, refl, e, low)

abbrev drift : Beacon
drift = record {
  kind_class = some "mirror_drift";
  system = some "mirror:a";
  evidence = record { detector = true; reproducible = true; stale = false; signal = false };
  entropy_uniqueness = 20;
  injection_normativity = 0;
  consent_credits = 10;
  plan = ("privacy", 50) ∷ [];
}

abbrev breach : Beacon
breach = record drift { kind_class = some "policy_violation"; system = some "b" }

decide_composed-Decides_example :
    Decides least is_meet default_policy default_valid
      (decide_composed least default_policy breach (drift ∷ []))
      (breach ∷ drift ∷ [])
decide_composed-Decides_example =
    decide_composed-Decides least is_meet default_policy default_valid breach (drift ∷ [])

abbrev fixed : Receipt
fixed = record {
  beacon_kind = "mirror_drift";
  verdict = some "sealed";
  action = "auto_fix";
  n_signals = 1;
  execution = none;
}

auto_fix-IsFixable_example : All IsFixable (drift ∷ []) × (3 ≤ total_weight (drift ∷ []))
unfolding decide_composed breached boundary_breaches axes_breached no_axes get max_iri compute_iri
    compose_evidence total_weight evidence_weight evidence_verdict reasoned effective_law law_for
    action_for compose_receipt primary_from least_from lower rank rank_in
auto_fix-IsFixable_example = auto_fix-IsFixable least drift [] fixed is_meet refl refl

-- An executor that raises, and a loop that converges after two calls.
abbrev failing : String → Beacon → ℕ → ℕ × Option Outcome
failing fn b calls = (calls + 1, none)

abbrev looping : String → Beacon → Receipt → ℕ → ℕ × Outcome
looping fn b r calls = (calls + 2, record failed_outcome { converged = true })

abbrev parse : String → Option Incoming
parse text =
    if str_eq text "one"
    then some (beacon drift)
    else if str_eq text "[]"
    then some ill_formed
    else none

-- The texts of the inbox are a beacon, and one that is not JSON.
readable : All (λ f. IsReadable parse f.1) spoiled.pending
readable = ((λ e. beacon_ne_ill_formed drift (some-inj _ _ e)), ((λ e. none_ne_ill_formed e), tt))
  where
    beacon_ne_ill_formed : (b : Beacon) → beacon b ≢ ill_formed
    beacon_ne_ill_formed b e = cc

    none_ne_ill_formed : none ≢ some ill_formed
    none_ne_ill_formed e = cc

abbrev inbox : Inbox
inbox = record { directory = spoiled; suppressor = some []; taken = 0 }

run_once-returns_example :
    (w' : ℕ) × (inbox' : Inbox) × (receipts : List Receipt) × (run_once least default_policy failing
        looping
        ("mirror_drift" ∷ [])
        parse
        (λ n. n)
        true
        3
        inbox
        0
      ≡ some (w', inbox', receipts))
    × IsRun least is_meet default_policy default_valid failing looping
        ("mirror_drift" ∷ [])
        parse
        (λ n. n)
        3
        inbox
        inbox'
        receipts
unfolding qsize pending_paths sort_paths insert_path before
run_once-returns_example =
    run_once-returns least is_meet default_policy default_valid failing looping
      ("mirror_drift" ∷ []) parse (λ n. n) true 3 inbox 0 (omega arith) readable
