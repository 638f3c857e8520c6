-- ===== src/ControlLoop/FailClosed.antt =====
-- The loop reports success only for an error that it has observed at the target, and otherwise hands
-- out the safe state.
use socio_workspace.Base.{
  ℕ, zero, suc, ◌+◌, ◌≤◌, ◌<◌, ◌≡◌, ◌↔◌, refl, ap, some-inj, sym, ◌∙◌, subst, Bool, true, false,
  Option, none, some, ◌⊎◌, inl, inr, arith, if◌then◌else◌, String, str_eq, Bool-cases,
}
use socio_workspace.ControlLoop.{
  Error, fin, inf, nan, Config, Reason, halt, Loop, LoopResult, decide, observed, finish, start,
  run, reached_target, reaches, control_loop, heal, mirror_drift_error, unknown_kind,
}
use socio_workspace.ControlLoop.Bounded.{run_rule, run-Ended, rounds}

pub reaches_iff :
    (target : ℕ) (e : Error)
    → (reaches target e ≡ true) ↔ ((m : ℕ) × (e ≡ fin m) × (m ≤ target + 1))
unfolding reaches
reaches_iff target (fin n) = (λ h. (n, refl, ground arith), λ (m, e, k). ground arith)
reaches_iff target inf = (λ h. cc, λ (m, e, k). cc)
reaches_iff target nan = (λ h. cc, λ (m, e, k). cc)

module _ {W : Type 0} (c : Config) (clock : ℕ → ℕ) (observe : W → W × Option Error)
    (act : W → W) where
  -- What a result says of itself.
  pub record Honest (r : LoopResult) : Type 0 where
    pub verified : (r.converged ≡ true) ↔ ((m : ℕ) × (r.final_error ≡ fin m) × (m ≤ c.target + 1))
    pub closed : r.fail_closed_state ≡ (if r.converged then none else some c.safe_state)
    pub because : (r.converged ≡ true) ↔ (r.reason ≡ reached_target)

  Honest-finish :
      (initial : Error) (r : Reason) (l : Loop W)
      → decide c clock l ≡ halt r
      → Honest (finish c clock observe act initial r l).1
  unfolding finish decide
  Honest-finish initial r l h = record {
    verified = reaches_iff c.target l.err;
    closed = refl;
    because = (λ e. ground arith, λ e. ground arith);
  }

  -- Whenever a run returns, it reports convergence exactly if the last observed error is a number of
  -- at most the target and one unit (never an infinity, a NaN, or an observation that raised), and
  -- hands out no safe state exactly then; the reason says so too.
  pub run-Honest : (w w' : W) (r : LoopResult) → run c clock observe act w ≡ some (w', r) → Honest r
  run-Honest w w' r h =
      let (l, why, b, _) = run_rule c clock observe act (λ _. Unit {0}) (λ _ _ _ _ _. tt) w tt in
      let initial = (start c clock observe act w).err in
      subst (λ p. Honest p.1)
        (some-inj (finish c clock observe act initial why l) (w', r) (sym b.ran ∙ h))
        (Honest-finish initial why l b.halts)

-- An observation of the mirror within the target is an answer true of `is_in_sync`.
in_sync_of_reaches :
    {W : Type 0} (in_sync : W → W × Option Bool) (u : W) (target : ℕ)
    → target < 990_000_000_000
    → reaches target (observed (mirror_drift_error in_sync u)).1 ≡ true
    → in_sync u ≡ ((observed (mirror_drift_error in_sync u)).0, some true)
unfolding reaches observed mirror_drift_error
in_sync_of_reaches in_sync u target t h = ground arith

module _ {W : Type 0} (in_sync : W → W × Option Bool) (executor : W → W) (c : Config)
    (clock : ℕ → ℕ) (t : c.target < 990_000_000_000) where
  last_check :
      (w : W) (n : ℕ)
      → let (v, e) = rounds c clock (mirror_drift_error in_sync) executor w n in
        reaches c.target e ≡ true → (u : W) × (in_sync u ≡ (v, some true))
  last_check w zero h = (w, in_sync_of_reaches in_sync w c.target t h)
  last_check w (suc n) h =
      let u = executor (rounds c clock (mirror_drift_error in_sync) executor w n).0 in
      (u, in_sync_of_reaches in_sync u c.target t h)

  verified_run :
      (w w' : W) (r : LoopResult)
      → run c clock (mirror_drift_error in_sync) executor w ≡ some (w', r)
      → r.converged ≡ true
      → (u : W) × (in_sync u ≡ (w', some true))
  verified_run w w' r h ok =
      let ended = run-Ended c clock (mirror_drift_error in_sync) executor w w' r h in
      let honest = run-Honest c clock (mirror_drift_error in_sync) executor w w' r h in
      let at_target = (reaches_iff c.target r.final_error).1 (honest.verified.0 ok) in
      let (u, checked) = last_check w ended.actions (rw ended.error at at_target) in
      (u, rw ended.world checked)

  control_loop-cases : (control_loop c ≡ none) ⊎ (control_loop c ≡ some c)
  unfolding control_loop
  control_loop-cases = ground arith

  -- A healed mirror drift is verified: if `heal` reports convergence, with a target below 0.99,
  -- then the class is the mirror drift, and the last thing that was done is a check of `is_in_sync`
  -- that answered true.
  pub heal_verified :
      (kind : String) (w w' : W) (r : LoopResult)
      → heal kind in_sync executor c clock w ≡ some (w', r)
      → r.converged ≡ true
      → (str_eq kind "mirror_drift" ≡ true) × ((u : W) × (in_sync u ≡ (w', some true)))
  unfolding heal
  heal_verified kind w w' r h ok = elim (Bool-cases (str_eq kind "mirror_drift")) [
    | inl known ↦ elim control_loop-cases [
      | inl refused ↦ absurd (not_raised (rw (known, refused) at h))
      | inr built ↦ (known, verified_run w w' r (rw (known, built) at h) ok)
    ]
    | inr unknown ↦ absurd (
        not_unknown
          (ap (λ p. p.1.converged) (some-inj (w, unknown_kind) (w', r) (rw unknown at h)) ∙ ok))
  ]
    where
      not_raised : ◌≡◌ {A = Option (W × LoopResult)} none (some (w', r)) → ⊥
      not_raised e = cc

      not_unknown : false ≡ true → ⊥
      not_unknown e = cc
