-- ===== src/ControlLoop.antt =====
-- automation/control_loop.py: the bounded, convergent, fail-closed loop, and `heal`.
-- An error is a float that is not negative; it is counted in units of 1e-12, so that the source's
-- `_EPS` is one unit. `inf` and `nan` are kept. The system under control is a state `W` that
-- `observe` and `act` change; an exception of `observe` is `none`, and one of `act` is what the
-- action has left of `W`, since the source drops it. `clock n` is the n-th reading of the clock, in
-- microseconds.
pub mod Bounded
pub mod FailClosed
pub mod Converges
use socio_workspace.Base.{
  ℕ, zero, suc, ◌+◌, ◌-◌, ◌==◌, Bool, true, false, Option, none, some, ◌>>=◌, List, [], ◌∷◌, ◌++◌,
  String, str_eq, leb, ltb, length, if◌then◌else◌,
}

pub data Error : Type 0 where
  fin : ℕ → Error
  inf nan : Error

-- `err <= target + _EPS`
unfoldable pub reaches : ℕ → Error → Bool
reaches target (fin n) = leb n (target + 1)
reaches target inf = false
reaches target nan = false

-- `err < best - _EPS`
unfoldable pub improves : Error → Error → Bool
improves (fin n) (fin b) = ltb (n + 1) b
improves (fin n) inf = true
improves (fin n) nan = false
improves inf best = false
improves nan best = false

pub record Config : Type 0 where
  pub max_iterations : ℕ
  pub deadline : ℕ
  pub target : ℕ
  pub patience : ℕ
  pub safe_state : String

-- `ControlLoop.__init__`; `none` is the `ValueError` of a loop that is not bounded.
unfoldable pub control_loop : Config → Option Config
control_loop c =
    if ltb c.max_iterations 1
    then none
    else if leb c.deadline 0
    then none
    else if ltb c.patience 1
    then none
    else some c

pub data Reason : Type 0 where
  reached_target exhausted deadline_exceeded stuck no_invariant : Reason

pub record TraceStep : Type 0 where
  pub iter : ℕ
  pub error : Error
  pub elapsed : ℕ
  pub acted : Bool

pub record LoopResult : Type 0 where
  pub converged : Bool
  pub iterations : ℕ
  pub initial_error : Error
  pub final_error : Error
  pub trace : List TraceStep
  pub fail_closed_state : Option String
  pub reason : Reason

-- The local variables of `run`; `reads` counts the readings of the clock.
pub record Loop (W : Type 0) : Type 0 where
  pub world : W
  pub err : Error
  pub best : Error
  pub stall : ℕ
  pub i : ℕ
  pub reads : ℕ
  pub trace : List TraceStep

-- What the tests of one iteration decide: to break with a reason, or to act with the new `best`
-- and `stall`.
pub data Decision : Type 0 where
  halt : Reason → Decision
  proceed : Error → ℕ → Decision

-- The convergence guard.
unfoldable pub guard_progress : ℕ → Error → Error → ℕ → Decision
unfolding improves
guard_progress patience err best stall =
    if improves err best
    then proceed err 0
    else if leb patience (stall + 1)
    then halt stuck
    else proceed best (stall + 1)

module _ {W : Type 0} where
  -- The body of `while True` up to the action.
  unfoldable pub decide : Config → (ℕ → ℕ) → Loop W → Decision
  unfolding reaches guard_progress
  decide c clock l =
      if reaches c.target l.err
      then halt reached_target
      else if leb c.max_iterations l.i
      then halt exhausted
      else if ltb c.deadline (clock (l.reads + 1) - clock 0)
      then halt deadline_exceeded
      else guard_progress c.patience l.err l.best l.stall

  -- `_observe`: an observation that raises is the maximal error.
  unfoldable pub observed : W × Option Error → W × Error
  observed (w, some e) = (w, e)
  observed (w, none) = (w, inf)

  -- The entry that the iteration appends to the trace; the action marks it.
  unfoldable pub trace_step : (ℕ → ℕ) → Loop W → Bool → TraceStep
  trace_step clock l acted = record {
    iter = l.i;
    error = l.err;
    elapsed = clock l.reads - clock 0;
    acted = acted;
  }

  module _ (c : Config) (clock : ℕ → ℕ) (observe : W → W × Option Error) (act : W → W) where
    -- The action, the next observation and `i += 1`.
    unfoldable pub advance : Error → ℕ → Loop W → Loop W
    unfolding observed trace_step
    advance best stall l =
        let (w, e) = observed (observe (act l.world)) in
        record {
          world = w;
          err = e;
          best = best;
          stall = stall;
          i = l.i + 1;
          reads = l.reads + 2;
          trace = l.trace ++ trace_step clock l true ∷ [];
        }

    -- The re-check of the terminal condition, and the result.
    unfoldable pub finish : Error → Reason → Loop W → W × LoopResult
    unfolding reaches trace_step
    finish initial reason l =
        let converged = reaches c.target l.err in
        let trace = l.trace ++ trace_step clock l false ∷ [] in
        (
          l.world,
          record {
            converged = converged;
            iterations = length trace;
            initial_error = initial;
            final_error = l.err;
            trace = trace;
            fail_closed_state = if converged then none else some c.safe_state;
            reason = reason;
          },
        )

    -- The loop; `none` means that the fuel ran out.
    unfoldable pub iterate : ℕ → Error → Loop W → Option (W × LoopResult)
    unfolding decide advance finish
    iterate zero initial l = none
    iterate (suc fuel) initial l = elim (decide c clock l) [
      | halt reason ↦ some (finish initial reason l)
      | proceed best stall ↦ iterate fuel initial (advance best stall l)
    ]

    -- The first reading of the clock and the first observation.
    unfoldable pub start : W → Loop W
    unfolding observed
    start w =
        let (w', e) = observed (observe w) in
        record { world = w'; err = e; best = inf; stall = 0; i = 0; reads = 1; trace = [] }

    -- `run`: one iteration more than actions.
    unfoldable pub run : W → Option (W × LoopResult)
    unfolding iterate start
    run w = iterate (c.max_iterations + 1) (start w).err (start w)

-- `_mirror_drift_error`: `in_sync` is `is_in_sync`, where `none` is an exception.
unfoldable pub mirror_drift_error : {W : Type 0} → (W → W × Option Bool) → W → W × Option Error
mirror_drift_error in_sync w =
    let (w', answer) = in_sync w in
    elim answer [
      | none ↦ (w', some inf)
      | some synced ↦ (w', some (if synced then fin 0 else fin 1_000_000_000_000))
    ]

-- The result for a class with no registered invariant.
abbrev pub unknown_kind : LoopResult
unknown_kind = record {
  converged = false;
  iterations = 0;
  initial_error = inf;
  final_error = inf;
  trace = [];
  fail_closed_state = some "quarantine-escalate";
  reason = no_invariant;
}

-- `heal`: `INVARIANTS` has the one key. The outer `none` is the `ValueError` of the constructor.
unfoldable pub heal :
    {W : Type 0}
    → String
    → (W → W × Option Bool)
    → (W → W)
    → Config
    → (ℕ → ℕ)
    → W
    → Option (W × LoopResult)
unfolding control_loop
heal kind in_sync executor c clock w =
    if str_eq kind "mirror_drift"
    then (control_loop c >>= λ c'. run c' clock (mirror_drift_error in_sync) executor w)
    else some (w, unknown_kind)
