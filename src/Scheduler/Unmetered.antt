-- ===== src/Scheduler/Unmetered.antt =====
-- The jobs of automation/scheduler.py that spend no API calls: learning, telemetry, detectors and the
-- responder. What they call in other modules are parameters on the state of the world, which answer
-- whether they returned or raised; the log lines are left out.
use socio_workspace.Base.{
  ◌+◌, ◌≡◌, ◌⊎◌, inl, inr, refl, ap, sym, subst, Bool, true, false, Option, none, some, List, [],
  ◌∷◌, arith, if◌then◌else◌, Bool-cases,
}
use socio_workspace.Scheduler.{Scheduler, start_job, fail_job}

module _ {W : Type 0} where
  -- The end of the `try`: a failure is counted, and the exception goes no further.
  unfoldable pub close_job : W × Bool → Scheduler W → Scheduler W
  unfolding fail_job
  close_job (w, true) s = record s { world = w }
  close_job (w, false) s = fail_job (record s { world = w })

  -- `_run_learning`, with `learning.run_once`
  unfoldable pub run_learning : (W → W × Bool) → Scheduler W → Scheduler W
  unfolding start_job close_job
  run_learning learn s = close_job (learn s.world) (start_job s)

  -- `_run_detectors`, with `detectors.run_detectors`
  unfoldable pub run_detectors : (W → W × Bool) → Scheduler W → Scheduler W
  unfolding start_job close_job
  run_detectors detect s = close_job (detect s.world) (start_job s)

  -- `_run_telemetry`: the metrics are collected, rendered and written, and then read for alerts.
  unfoldable pub telemetry_cycle :
      {M : Type 0} → (W → W × Option M) → (M → W → W × Bool) → (M → W → W × Bool) → W → W × Bool
  telemetry_cycle collect write alerts w =
      let (w1, metrics) = collect w in
      elim metrics [
        | none ↦ (w1, false)
        | some m ↦ let (w2, ok) = write m w1 in if ok then alerts m w2 else (w2, false)
      ]

  unfoldable pub run_telemetry :
      {M : Type 0}
      → (W → W × Option M)
      → (M → W → W × Bool)
      → (M → W → W × Bool)
      → Scheduler W
      → Scheduler W
  unfolding telemetry_cycle start_job close_job
  run_telemetry collect write alerts s =
      close_job (telemetry_cycle collect write alerts s.world) (start_job s)

  module _ {R : Type 0} (decide : W → W × Option (List R)) (route : R → W → W × Bool)
      (progress : W → W × Bool) where
    -- The loop that routes the decisions to incident rooms.
    unfoldable pub route_all : List R → W → W × Bool
    route_all [] w = (w, true)
    route_all (r ∷ receipts) w =
        let (w', ok) = route r w in
        let rest = route_all receipts w' in if ok then rest else (w', false)

    -- `liveness.progress` stands last.
    unfoldable pub after_decisions : W → Option (List R) → W × Bool
    unfolding route_all
    after_decisions w none = (w, false)
    after_decisions w (some receipts) =
        let (w', ok) = route_all receipts w in if ok then progress w' else (w', false)

    unfoldable pub responder_cycle : W → W × Bool
    unfolding after_decisions
    responder_cycle w = let (w', receipts) = decide w in after_decisions w' receipts

    -- `_run_responder`
    unfoldable pub run_responder : Scheduler W → Scheduler W
    unfolding responder_cycle start_job close_job
    run_responder s = close_job (responder_cycle s.world) (start_job s)

    -- The whole decision cycle, ended by `progress` that leaves the world `w'`.
    pub record Completed (w w' : W) : Type 0 where
      pub receipts : List R
      pub decided : (decide w).1 ≡ some receipts
      pub routed : (route_all receipts (decide w).0).1 ≡ true
      pub progressed : progress (route_all receipts (decide w).0).0 ≡ (w', true)

    pair_of : (p : W × Bool) (b : Bool) → p.1 ≡ b → p ≡ (p.0, b)
    pair_of p b h = ap (λ c. (p.0, c)) h

    ended_by_progress :
        (w : W) (receipts : List R)
        → (after_decisions w (some receipts)).1 ≡ true
        → ((route_all receipts w).1 ≡ true)
          × (progress (route_all receipts w).0 ≡ ((after_decisions w (some receipts)).0, true))
    unfolding after_decisions
    ended_by_progress w receipts h = elim (Bool-cases (route_all receipts w).1) [
      | inl routed ↦
          let p = progress (route_all receipts w).0 in
          (routed, rw routed (pair_of p true (rw routed at h)))
      | inr stopped ↦ absurd (ground (arith, stopped, h))
    ]

    Completed-cycle : (w : W) → (responder_cycle w).1 ≡ true → Completed w (responder_cycle w).0
    unfolding responder_cycle
    Completed-cycle w h = go (decide w).1 refl
      where
        go :
            (o : Option (List R))
            → (decide w).1 ≡ o
            → Completed w (after_decisions (decide w).0 (decide w).1).0
        go none raised =
            absurd (none_fails (subst (λ o. (after_decisions (decide w).0 o).1 ≡ true) raised h))
          where
            none_fails : (after_decisions (decide w).0 none).1 ≡ true → ⊥
            none_fails e = unfold after_decisions in ground arith
        go (some receipts) decided =
            let (routed, progressed) =
              ended_by_progress (decide w).0 receipts
                (subst (λ o. (after_decisions (decide w).0 o).1 ≡ true) decided h) in
            record {
              receipts = receipts;
              decided = decided;
              routed = routed;
              progressed =
                  subst
                    (λ o.
                      progress (route_all receipts (decide w).0).0
                      ≡ ((after_decisions (decide w).0 o).0, true))
                    (sym decided) progressed;
            }

    Completed-close_job :
        (s : Scheduler W) (p : W × Bool)
        → responder_cycle s.world ≡ p
        → let s' = close_job p (start_job s) in
          (s'.metrics.jobs_run ≡ s.metrics.jobs_run + 1)
          × (s'.limiter ≡ s.limiter)
          × (((s'.metrics.jobs_failed ≡ s.metrics.jobs_failed) × Completed s.world s'.world)
              ⊎ ((s'.metrics.jobs_failed ≡ s.metrics.jobs_failed + 1)
                  × (responder_cycle s.world ≡ (s'.world, false))))
    unfolding close_job start_job
    Completed-close_job s (w, true) e =
        let whole = Completed-cycle s.world (ap (λ p. p.1) e) in
        (refl, refl, inl (refl, subst (Completed s.world) (ap (λ p. p.0) e) whole))
    Completed-close_job s (w, false) e = (refl, refl, inr (refl, e))

    -- A run of the responder's job is counted, takes nothing from the limiter, and either counts no
    -- failure and has recorded progress at the end of a cycle in which every decision was routed, or
    -- counts one failure and has raised.
    pub run_responder_lem :
        (s : Scheduler W)
        → let s' = run_responder s in
          (s'.metrics.jobs_run ≡ s.metrics.jobs_run + 1)
          × (s'.limiter ≡ s.limiter)
          × (((s'.metrics.jobs_failed ≡ s.metrics.jobs_failed) × Completed s.world s'.world)
              ⊎ ((s'.metrics.jobs_failed ≡ s.metrics.jobs_failed + 1)
                  × (responder_cycle s.world ≡ (s'.world, false))))
    unfolding run_responder
    run_responder_lem s = Completed-close_job s (responder_cycle s.world) refl
