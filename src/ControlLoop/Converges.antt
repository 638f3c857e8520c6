-- ===== src/ControlLoop/Converges.antt =====
-- A system that every action brings closer to the target is driven to it.
use native.Mathlib.Nat.{mul-le-mul_left}
use socio_workspace.Base.{ℕ, ◌+◌, ◌*◌, ◌≤◌, ◌≡◌, true, Option, some, ◌⊎◌, arith}
use socio_workspace.ControlLoop.{
  Error, fin, Config, Reason, halt, proceed, Loop, LoopResult, decide, advance, finish, start, run,
  improves, reaches,
}
use socio_workspace.ControlLoop.Bounded.{run_rule}

module _ {W : Type 0} (c : Config) (clock : ℕ → ℕ) (observe : W → W × Option Error) (act : W → W)
    (measure : W → ℕ) (seen : (w : W) → observe w ≡ (w, some (fin (measure w)))) (gain : ℕ)
    (visible : 2 ≤ gain)
    (closer : (w : W) → (measure (act w) + gain ≤ measure w) ⊎ (measure (act w) ≤ c.target + 1))
    (in_time : (n : ℕ) → clock n ≤ clock 0 + c.deadline) where
  record OnTrack (l : Loop W) : Type 0 where
    observes : l.err ≡ fin (measure l.world)
    improving : improves l.err l.best ≡ true ⊎ (measure l.world ≤ c.target + 1)
    budget :
        measure l.world + gain * l.i ≤ c.target + 1 + gain * c.max_iterations
        ⊎ (measure l.world ≤ c.target + 1)

  OnTrack-start :
      (w : W)
      → measure w ≤ c.target + 1 + gain * c.max_iterations
      → OnTrack (start c clock observe act w)
  unfolding start improves
  OnTrack-start w h = ground (arith, seen w)

  more : (i : ℕ) → gain * (i + 1) ≡ gain * i + gain
  more i = omega arith

  enough : (i : ℕ) → c.max_iterations ≤ i → gain * c.max_iterations ≤ gain * i
  enough i h = mul-le-mul_left gain h

  OnTrack-advance :
      (l : Loop W) (b : Error) (s : ℕ)
      → OnTrack l
      → decide c clock l ≡ proceed b s
      → OnTrack (advance c clock observe act b s l)
  unfolding advance decide improves
  OnTrack-advance l b s t e = ground (arith, seen (act l.world), closer l.world, visible, more l.i)

  OnTrack-halt :
      (l : Loop W) (r : Reason)
      → OnTrack l
      → decide c clock l ≡ halt r
      → reaches c.target l.err ≡ true
  unfolding decide
  OnTrack-halt l r t e = ground (arith, in_time (l.reads + 1), enough l.i)

  finish-converged :
      (w : W) (l : Loop W) (r : Reason)
      → reaches c.target l.err ≡ true
      → (finish c clock observe act (start c clock observe act w).err r l).1.converged ≡ true
  unfolding finish
  finish-converged w l r h = h

  -- Suppose that an observation gives the measure of the system and leaves it alone, that every
  -- action lowers the measure by a gain of at least 2e-12 or brings it to the target, that the clock
  -- stays within the deadline, and that the first measure is above the target plus 1e-12 by at most
  -- the gain for each allowed action. Then the run returns, and reports convergence.
  pub run_converges :
      (w : W)
      → measure w ≤ c.target + 1 + gain * c.max_iterations
      → (w' : W) × (r : LoopResult) × (run c clock observe act w ≡ some (w', r))
        × (r.converged ≡ true)
  run_converges w h =
      let (l, r, b, t) =
        run_rule c clock observe act OnTrack OnTrack-advance w (OnTrack-start w h) in
      (_, _, b.ran, finish-converged w l r (OnTrack-halt l r t b.halts))
