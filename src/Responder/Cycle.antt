-- ===== src/Responder/Cycle.antt =====
-- `run_once` of automation/responder.py: the drain of the inbox, the groups by subject, and one
-- decision for each. The graph upserts are not in the model. The receipts are the list that is
-- returned, which is also what is put in the queue of decisions.
use socio_workspace.Base.{
  ℕ, zero, suc, Bool, true, Option, none, some, List, [], ◌∷◌, ◌++◌, String, if◌then◌else◌, ◌>>=◌,
}
use Prim.Native.String.{◌++◌ as text_append}
use socio_workspace.Base.Dict.{Dict, get, put}
use socio_workspace.Policy.{ResponsePolicy, or_else}
use socio_workspace.Suppression.{Store, should_process}
use socio_workspace.DurableQueue.{Directory, Got, got, queue_empty, raised, get_nowait, empty}
use socio_workspace.Responder.{Beacon, Receipt, Outcome, kind_of, decide_composed, primary_from}
use socio_workspace.Responder.Acts.{execute}

-- The identity of the condition that a beacon reports.
unfoldable pub fingerprint : Beacon → String
fingerprint b = text_append (kind_of b) (text_append "::" (or_else "" b.system))

-- The files of the inbox, the store of the suppressor if there is one, and the number of beacons
-- that were taken.
pub record Inbox : Type 0 where
  pub directory : Directory
  pub suppressor : Option Store
  pub taken : ℕ

-- What a text of the inbox is, if it is JSON: a beacon whose fields have their types, or something
-- else.
pub data Incoming : Type 0 where
  beacon : Beacon → Incoming
  ill_formed : Incoming

-- `failed` is an entry that is no beacon: the source raises outside the `try` of the drain when it
-- first uses a field that is not there or not of its type, here or in the decision.
pub data Drain : Type 0 where
  drained : List Beacon → Inbox → Drain
  failed : Drain
  out_of_fuel : Drain

-- A beacon that was not suppressed goes before the later ones.
unfoldable pub keep : Bool → Beacon → Drain → Drain
keep ok b (drained survivors s) = drained (if ok then b ∷ survivors else survivors) s
keep ok b failed = failed
keep ok b out_of_fuel = out_of_fuel

module _ (loads : String → Option Incoming) (cooldown : ℕ) (clock : ℕ → ℕ) where
  -- Whether the beacon is processed, by `clock n` for the time of the n-th beacon.
  unfoldable pub admit : Beacon → Directory → Inbox → Bool × Inbox
  admit b d s = elim s.suppressor [
    | none ↦ (true, record { directory = d; suppressor = none; taken = suc s.taken })
    | some store ↦
        let (ok, store') = should_process (fingerprint b) cooldown (clock s.taken) store in
        (ok, record { directory = d; suppressor = some store'; taken = suc s.taken })
  ]

  -- The rest of a round, for `go_on` as the later rounds: any exception ends the loop.
  unfoldable pub after_get : (Inbox → Drain) → Inbox → Directory × Got Incoming → Drain
  after_get go_on s (d, got (beacon b)) = keep (admit b d s).0 b (go_on (admit b d s).1)
  after_get go_on s (d, got ill_formed) = failed
  after_get go_on s (d, queue_empty) = drained [] (record s { directory = d })
  after_get go_on s (d, raised) = drained [] (record s { directory = d })

  -- The loop of the drain; `fuel` bounds its rounds.
  unfoldable pub drain : ℕ → Inbox → Drain
  drain zero s = out_of_fuel
  drain (suc fuel) s =
      if empty s.directory
      then drained [] s
      else after_get (drain fuel) s (get_nowait loads s.directory)

abbrev pub system_of : Beacon → String
system_of b = or_else "unknown" b.system

-- The beacons of one subject, the first one and the later ones.
abbrev pub Subject : Type 0
Subject = Beacon × List Beacon

unfoldable pub append_to : Beacon → Option Subject → Subject
append_to b none = (b, [])
append_to b (some (c, rest)) = (c, rest ++ (b ∷ []))

unfoldable pub group_from : List Beacon → Dict Subject → Dict Subject
group_from [] groups = groups
group_from (b ∷ survivors) groups =
    group_from survivors (put groups (system_of b) (append_to b (get groups (system_of b))))

unfoldable pub group_by_system : List Beacon → Dict Subject
group_by_system survivors = group_from survivors []

module _ {W : Type 0} (meet : List String → Option String) (p : ResponsePolicy)
    (call : String → Beacon → W → W × Option Outcome)
    (remediate : String → Beacon → Receipt → W → W × Outcome) (invariants : List String) where
  -- The decision on a subject, carried out if the flag is set.
  unfoldable pub decide_subject : Bool → Subject → W → Option (W × Receipt)
  decide_subject does_execute (b, rest) w = decide_composed meet p b rest >>= λ r.
      some (
        if does_execute
        then execute call remediate invariants (primary_from b rest) r w
        else (w, r))

  unfoldable pub decide_groups : Bool → Dict Subject → W → Option (W × List Receipt)
  decide_groups does_execute [] w = some (w, [])
  decide_groups does_execute ((k, subject) ∷ groups) w =
      decide_subject does_execute subject w >>= λ one.
      decide_groups does_execute groups one.0 >>= λ others. some (others.0, one.1 ∷ others.1)

  -- `run_once`; `none` is an exception, here also one for the fuel. An entry that is no beacon counts
  -- as one, also where the source would stop its subject before it uses the field.
  unfoldable pub run_once :
      (String → Option Incoming)
      → (ℕ → ℕ)
      → Bool
      → ℕ
      → Inbox
      → W
      → Option (W × Inbox × List Receipt)
  run_once loads clock does_execute fuel inbox w =
      elim (drain loads p.suppression_cooldown clock fuel inbox) [
        | out_of_fuel ↦ none
        | failed ↦ none
        | drained survivors inbox' ↦
            decide_groups does_execute (group_by_system survivors) w >>= λ done.
            some (done.0, inbox', done.1)
      ]
