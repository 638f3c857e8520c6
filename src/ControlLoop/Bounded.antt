-- ===== src/ControlLoop/Bounded.antt =====
-- The loop ends, and acts at most `max_iterations` times.
use socio_workspace.Base.{
  ℕ, zero, suc, ◌+◌, ◌≤◌, ◌<◌, ◌≡◌, refl, subst, ◌∙◌, some-inj, sym, Option, some, ◌⊎◌, inl, inr,
  arith, length, length-append,
}
use native.Mathlib.Numerals.{add-one}
use socio_workspace.ControlLoop.{
  Error, Config, Reason, halt, proceed, Decision, Loop, LoopResult, decide, observed, advance,
  finish, iterate, start, run,
}

Decision-cases :
    (d : Decision) → ((r : Reason) × (d ≡ halt r)) ⊎ ((b : Error) × (s : ℕ) × (d ≡ proceed b s))
Decision-cases (halt r) = inl (r, refl)
Decision-cases (proceed b s) = inr (b, s, refl)

module _ {W : Type 0} (c : Config) (clock : ℕ → ℕ) (observe : W → W × Option Error)
    (act : W → W) where
  proceed-lt :
      (l : Loop W) (b : Error) (s : ℕ) → decide c clock l ≡ proceed b s → l.i < c.max_iterations
  unfolding decide
  proceed-lt l b s h = ground arith

  -- A loop rule: what holds at the start and is kept by each action holds where the loop breaks.
  pub iterate_rule {ℓ} :
      (P : Loop W → Type ℓ)
      → ((l : Loop W) (b : Error) (s : ℕ)
          → P l
          → decide c clock l ≡ proceed b s
          → P (advance c clock observe act b s l))
      → (fuel : ℕ) (initial : Error) (l : Loop W) → P l
      → l.i ≤ c.max_iterations
      → c.max_iterations < fuel + l.i
      → (l' : Loop W) × (r : Reason) × (decide c clock l' ≡ halt r)
        × P l'
        × (iterate c clock observe act fuel initial l
            ≡ some (finish c clock observe act initial r l'))
  unfolding iterate
  iterate_rule P keep zero initial l p k h = absurd (omega arith)
  iterate_rule P keep (suc fuel) initial l p k h = elim (Decision-cases (decide c clock l)) [
    | inl (r, e) ↦ (l, r, e, p, rw (e, iterate))
    | inr (b, s, e) ↦
        let lt = proceed-lt l b s e in
        let (l', r, e', p', eq) =
          iterate_rule P keep fuel initial (advance c clock observe act b s l) (keep l b s p e)
            (omega arith) (omega arith) in
        (l', r, e', p', rw (e, iterate) eq)
  ]

  -- The world and the error that the n-th observation after the first one gives, when each is made
  -- after one more action.
  abbrev pub rounds : W → ℕ → W × Error
  rounds w zero = observed (observe w)
  rounds w (suc n) = observed (observe (act (rounds w n).0))

  record Tracks (w : W) (l : Loop W) : Type 0 where
    bounded : l.i ≤ c.max_iterations
    traced : length l.trace ≡ l.i
    world : l.world ≡ (rounds w l.i).0
    error : l.err ≡ (rounds w l.i).1

  Tracks-start : (w : W) → Tracks w (start c clock observe act w)
  unfolding start
  Tracks-start w = ground arith

  start-i : (w : W) → (start c clock observe act w).i ≡ 0
  unfolding start
  start-i w = refl

  Tracks-advance :
      (w : W) (l : Loop W) (b : Error) (s : ℕ)
      → Tracks w l
      → decide c clock l ≡ proceed b s
      → Tracks w (advance c clock observe act b s l)
  unfolding advance
  Tracks-advance w l b s t e =
      let lt = proceed-lt l b s e in
      record {
        bounded = omega arith;
        traced = rw length-append (omega (arith, t.traced));
        world = rw (add-one, t.world);
        error = rw (add-one, t.world);
      }

  -- How a run has ended: after some number of actions, at most `max_iterations`, with a trace entry
  -- for each of them and one for the last test; the final world and error are those of the
  -- observation after the last action.
  pub record Ended (w w' : W) (r : LoopResult) : Type 0 where
    pub actions : ℕ
    pub bounded : actions ≤ c.max_iterations
    pub counted : r.iterations ≡ actions + 1
    pub world : w' ≡ (rounds w actions).0
    pub error : r.final_error ≡ (rounds w actions).1
    pub first : r.initial_error ≡ (rounds w 0).1

  -- Where the loop breaks.
  pub record Broke (w : W) (l : Loop W) (r : Reason) : Type 0 where
    pub halts : decide c clock l ≡ halt r
    pub ended :
        Ended w
          (finish c clock observe act (start c clock observe act w).err r l).0
          (finish c clock observe act (start c clock observe act w).err r l).1
    pub iterations : length l.trace ≡ l.i
    pub ran :
        run c clock observe act w
        ≡ some (finish c clock observe act (start c clock observe act w).err r l)

  Broke-of-Tracks :
      (w : W) (l : Loop W) (r : Reason)
      → decide c clock l ≡ halt r
      → Tracks w l
      → run c clock observe act w
        ≡ some (finish c clock observe act (start c clock observe act w).err r l)
      → Broke w l r
  unfolding finish start
  Broke-of-Tracks w l r e t eq = record {
    halts = e;
    ended = record {
      actions = l.i;
      bounded = t.bounded;
      counted = rw length-append (omega (arith, t.traced));
      world = t.world;
      error = t.error;
      first = refl;
    };
    iterations = t.traced;
    ran = eq;
  }

  -- A loop invariant holds where a run breaks.
  pub run_rule {ℓ} :
      (P : Loop W → Type ℓ)
      → ((l : Loop W) (b : Error) (s : ℕ)
          → P l
          → decide c clock l ≡ proceed b s
          → P (advance c clock observe act b s l))
      → (w : W) → P (start c clock observe act w)
      → (l : Loop W) × (r : Reason) × Broke w l r × P l
  unfolding run
  run_rule P keep w p =
      let l0 = start c clock observe act w in
      let (l, r, e, t, eq) =
        iterate_rule (λ l. Tracks w l × P l)
          (λ l b s t e. (Tracks-advance w l b s t.0 e, keep l b s t.1 e)) (c.max_iterations + 1)
          l0.err l0 (Tracks-start w, p) (omega (arith, start-i w)) (omega (arith, start-i w)) in
      (l, r, Broke-of-Tracks w l r e t.0 eq, t.1)

  -- The loop ends from every state of the system, whatever the observations, the actions and the
  -- clock do, within the bound on the actions; its result and the world are those of the
  -- observation after the last action.
  pub run_ends :
      (w : W)
      → (w' : W) × (r : LoopResult) × (run c clock observe act w ≡ some (w', r)) × Ended w w' r
  run_ends w =
      let (l, r, b, _) = run_rule (λ _. Unit {0}) (λ _ _ _ _ _. tt) w tt in (_, _, b.ran, b.ended)

  -- So is every result of a run.
  pub run-Ended :
      (w w' : W) (r : LoopResult) → run c clock observe act w ≡ some (w', r) → Ended w w' r
  run-Ended w w' r h =
      let (v, q, e, d) = run_ends w in
      subst (λ p. Ended w p.0 p.1) (some-inj (v, q) (w', r) (sym e ∙ h)) d
