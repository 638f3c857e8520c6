-- ===== src/Scheduler/Retry.antt =====
-- The retries of `_run_propagation`.
use socio_workspace.Base.{
  ℕ, zero, suc, ◌+◌, ◌≡◌, refl, Bool, true, false, List, ◌∷◌, ◌⊎◌, inl, inr, ap, ◌∙◌, ◌<◌, arith,
  Bool-cases,
}
use socio_workspace.Scheduler.{Scheduler, returned, run_propagation}

-- The handler raises `n` times on the event and then returns, taking the world from `w` to `w'`.
pub data FailsThenReturns {W E : Type 0} (handler : W → E → W × Bool) (event : E)
    : ℕ → W → W → Type 0 where
  returns : {w w' : W} → handler w event ≡ (w', true) → FailsThenReturns handler event 0 w w'
  fails :
      {n : ℕ} {w w1 w' : W}
      → handler w event ≡ (w1, false)
      → FailsThenReturns handler event n w1 w'
      → FailsThenReturns handler event (suc n) w w'

-- `n` pauses of two seconds in front of the log.
abbrev pub pauses : ℕ → List ℕ → List ℕ
pauses zero log = log
pauses (suc n) log = pauses n (2 ∷ log)

module _ {W E : Type 0} (handler : W → E → W × Bool) (event : E) where
  -- The state after `n` failures and a success that leaves the world `w'`.
  abbrev pub after_retries : ℕ → W → Scheduler W → Scheduler W
  after_retries n w' s = record s {
    world = w';
    metrics = record s.metrics {
      jobs_run = s.metrics.jobs_run + (n + 1);
      jobs_failed = s.metrics.jobs_failed + n;
      events_processed = s.metrics.events_processed + 1;
    };
    slept = pauses n s.slept;
  }

  -- The state in which the failed handler is called again.
  abbrev pub retried : W → Scheduler W → Scheduler W
  retried w s = record s {
    world = w;
    metrics = record s.metrics {
      jobs_run = s.metrics.jobs_run + 1;
      jobs_failed = s.metrics.jobs_failed + 1;
    };
    slept = 2 ∷ s.slept;
  }

  after_retries-retried :
      (n : ℕ) (w' w1 : W) (s : Scheduler W)
      → after_retries n w' (retried w1 s) ≡ after_retries (suc n) w' s
  after_retries-retried n w' w1 s = ground arith

  pub run-returns :
      (fuel : ℕ) (s : Scheduler W) (w' : W)
      → handler s.world event ≡ (w', true)
      → run_propagation handler (suc fuel) event s ≡ returned (after_retries 0 w' s)
  unfolding run_propagation
  run-returns fuel s w' e = ground arith

  run-fails :
      (fuel : ℕ) (s r : Scheduler W) (w1 : W)
      → handler s.world event ≡ (w1, false)
      → run_propagation handler fuel event (retried w1 s) ≡ returned r
      → run_propagation handler (suc fuel) event s ≡ returned r
  unfolding run_propagation
  run-fails fuel s r w1 e h = rw (e, h)

  -- The state in which the propagation gave up: the handler was called `n + 1` times and raised each
  -- time, and then the retry helper found no more room for a call, three times.
  abbrev pub gave_up : ℕ → W → Scheduler W → Scheduler W
  gave_up n w' s = record s {
    world = w';
    metrics = record s.metrics {
      jobs_run = s.metrics.jobs_run + (n + 1);
      jobs_failed = s.metrics.jobs_failed + (n + 1);
    };
    slept = 8 ∷ 4 ∷ 2 ∷ pauses n s.slept;
  }

  answer : {b : Bool} (w : W) → (handler w event).1 ≡ b → handler w event ≡ ((handler w event).0, b)
  answer w e = ap (λ b. ((handler w event).0, b)) e

  -- Without room for another call, a failed attempt is the last.
  run-last :
      (s : Scheduler W) (w1 : W)
      → handler s.world event ≡ (w1, false)
      → run_propagation handler 1 event s ≡ returned (gave_up 0 w1 s)
  unfolding run_propagation
  run-last s w1 e = rw e refl

  -- With room for at least one call the propagation returns, and counts at most one event.
  pub run-ends :
      (depth : ℕ) (s : Scheduler W)
      → (r : Scheduler W) × (run_propagation handler (suc depth) event s ≡ returned r)
        × (r.limiter ≡ s.limiter)
        × (r.metrics.jobs_skipped ≡ s.metrics.jobs_skipped)
        × ((r.metrics.events_processed ≡ s.metrics.events_processed)
            ⊎ (r.metrics.events_processed ≡ s.metrics.events_processed + 1))
  run-ends zero s =
      let w1 = (handler s.world event).0 in
      elim (Bool-cases (handler s.world event).1) [
        | inl ok ↦
            (after_retries 0 w1 s, run-returns 0 s w1 (answer s.world ok), refl, refl, inr refl)
        | inr bad ↦ (gave_up 0 w1 s, run-last s w1 (answer s.world bad), refl, refl, inl refl)
      ]
  run-ends (suc depth) s =
      let w1 = (handler s.world event).0 in
      elim (Bool-cases (handler s.world event).1) [
        | inl ok ↦ (
          after_retries 0 w1 s,
          run-returns (suc depth) s w1 (answer s.world ok),
          refl,
          refl,
          inr refl,
        )
        | inr bad ↦
            let (r, e, kept, skips, events) = run-ends depth (retried w1 s) in
            (r, run-fails (suc depth) s r w1 (answer s.world bad) e, kept, skips, events)
      ]

  -- If the handler raises n times on an event and then returns, the propagation, where there is
  -- room for more than n nested calls, makes all n + 1 attempts, with a pause of two seconds before each repetition, also beyond the
  -- three retries of the retry helper.
  pub retry_until_return :
      (fuel n : ℕ) (s : Scheduler W) {w w' : W}
      → s.world ≡ w
      → FailsThenReturns handler event n w w'
      → n < fuel
      → run_propagation handler fuel event s ≡ returned (after_retries n w' s)
  retry_until_return zero n s e f h = elim h [ ]
  retry_until_return (suc fuel) _ s e (returns {w' = v} r) h =
      run-returns fuel s v (ap (λ x. handler x event) e ∙ r)
  retry_until_return (suc fuel) _ s e (fails {n = m} {w1 = v} {w' = u} r f) h =
      let ih = retry_until_return fuel m (retried v s) refl f (omega arith) in
      let shown =
        run-fails fuel s (after_retries m u (retried v s)) v (ap (λ x. handler x event) e ∙ r) ih in
      shown ∙ ap returned (after_retries-retried m u v s)

  -- The world after so many calls of the handler on the event.
  unfoldable pub world_after : ℕ → W → W
  world_after zero w = w
  world_after (suc n) w = world_after n (handler w event).0
