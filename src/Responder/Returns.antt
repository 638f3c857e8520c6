-- ===== src/Responder/Returns.antt =====
-- What `run_once` of automation/responder.py returns, and that it does.
use socio_workspace.Base.{
  ◌<◌, ℕ, suc, ◌≡◌, refl, ap, All, Bool, true, Option, some, List, [], ◌∷◌, String, if◌then◌else◌,
  length,
}
use socio_workspace.Base.Dict.{Dict}
use socio_workspace.Policy.{ResponsePolicy, validate_policy}
use socio_workspace.Responder.{Beacon, Receipt, Outcome, primary_from}
use socio_workspace.Responder.Verdict.{IsMeet, decide_composed-Decides}
use socio_workspace.Responder.Acts.{execute}
use socio_workspace.DurableQueue.{qsize}
use socio_workspace.Responder.Drained.{IsReadable, drain-Ends}
use socio_workspace.Responder.Cycle.{
  Subject, group_by_system, decide_subject, decide_groups, Incoming, Inbox, drained, drain,
  run_once,
}
use socio_workspace.Responder.Grouped.{IsGrouping, group_by_system-IsGrouping}

module _ {W : Type 0} (meet : List String → Option String) (is_meet : IsMeet meet)
    (p : ResponsePolicy) (valid : validate_policy p ≡ true)
    (call : String → Beacon → W → W × Option Outcome)
    (remediate : String → Beacon → Receipt → W → W × Outcome) (invariants : List String) where
  decide_subject-returns :
      (flag : Bool) (subject : Subject) (w : W)
      → (one : W × Receipt) × (decide_subject meet p call remediate invariants flag subject w
          ≡ some one)
  unfolding decide_subject
  decide_subject-returns flag (b, rest) w =
      let (r, e, why) = decide_composed-Decides meet is_meet p valid b rest in
      (
        (if flag then execute call remediate invariants (primary_from b rest) r w else (w, r)),
        rw e refl,
      )

  -- If `meet` is the least of its verdicts and the policy is valid, then the decisions on any
  -- subjects, executed or not, return, with one receipt for each subject.
  pub decide_groups-returns :
      (flag : Bool) (groups : Dict Subject) (w : W)
      → (w' : W) × (receipts : List Receipt) × (decide_groups meet p call remediate invariants flag
            groups w
          ≡ some (w', receipts))
        × (length receipts ≡ length groups)
  unfolding decide_groups
  decide_groups-returns flag [] w = (w, [], refl, refl)
  decide_groups-returns flag ((k, subject) ∷ groups) w =
      let (one, e) = decide_subject-returns flag subject w in
      let (w', receipts, e', n) = decide_groups-returns flag groups one.0 in
      (w', one.1 ∷ receipts, rw (e, e') refl, ap suc n)

  -- How a run of the responder ended: with what the drain took, and a receipt for each subject.
  pub record IsRun (loads : String → Option Incoming) (clock : ℕ → ℕ) (fuel : ℕ)
      (inbox inbox' : Inbox) (receipts : List Receipt) : Type 0 where
    pub survivors : List Beacon
    pub taken : drain loads p.suppression_cooldown clock fuel inbox ≡ drained survivors inbox'
    pub grouped : IsGrouping survivors (group_by_system survivors)
    pub one_each : length receipts ≡ length (group_by_system survivors)

  -- If `meet` is the least of its verdicts, the policy is valid, there is more fuel than files are
  -- pending, and every pending text is a well-formed beacon or not JSON, then a run on the inbox,
  -- executing or not, returns. The beacons that the drain let through are grouped: the groups have
  -- different systems, the beacons of a group all report on its system, and for every test as many
  -- beacons of the groups pass it as were let through. There is one receipt for each group.
  pub run_once-returns :
      (loads : String → Option Incoming) (clock : ℕ → ℕ) (flag : Bool) (fuel : ℕ) (inbox : Inbox)
      (w : W)
      → qsize inbox.directory < fuel
      → All (λ f. IsReadable loads f.1) inbox.directory.pending
      → (w' : W) × (inbox' : Inbox) × (receipts : List Receipt) × (run_once meet p call remediate
            invariants loads clock flag fuel inbox w
          ≡ some (w', inbox', receipts))
        × IsRun loads clock fuel inbox inbox' receipts
  unfolding run_once
  run_once-returns loads clock flag fuel inbox w h readable =
      let (survivors, inbox', e, why) =
        drain-Ends loads p.suppression_cooldown clock fuel inbox h readable in
      let (w', receipts, e', n) = decide_groups-returns flag (group_by_system survivors) w in
      (
        w',
        inbox',
        receipts,
        rw (e, run_once, e') refl,
        record {
          survivors = survivors;
          taken = e;
          grouped = group_by_system-IsGrouping survivors;
          one_each = n;
        },
      )
