-- ===== src/Scheduler/Jobs.antt =====
-- The metered jobs: the hourly registry rebuild and the daily deep scan.
use socio_workspace.Base.{ℕ, ◌+◌, ◌*◌, ◌≡◌, Bool, arith}
use socio_workspace.RateLimit.{Limiter, Moment, maybe_reset_hour}
use socio_workspace.RateLimit.Window.{IsSafe, acquire-IsSafe, acquire-charges, reset-IsSafe}
use socio_workspace.Scheduler.{
  Scheduler, run_registry_rebuild, run_deep_scan, cost_registry_rebuild, cost_deep_scan,
}

reset-today : (t : Moment) (r : Limiter) → (maybe_reset_hour t r).calls_today ≡ r.calls_today
unfolding maybe_reset_hour
reset-today t r = ground arith

module _ {W : Type 0} where
  -- One run of a metered job: it is either run or skipped; if it runs, it is counted once more, as
  -- a success (`done`) or as a failure, and its cost is charged; the limiter stays safe.
  pub record Metered (done : Scheduler W → ℕ) (cost : ℕ) (s s' : Scheduler W) : Type 0 where
    pub safe : IsSafe s'.limiter
    pub counted :
        s'.metrics.jobs_run + s'.metrics.jobs_skipped
        ≡ s.metrics.jobs_run + s.metrics.jobs_skipped + 1
    pub ended :
        done s' + s'.metrics.jobs_failed + s.metrics.jobs_run
        ≡ done s + s.metrics.jobs_failed + s'.metrics.jobs_run
    pub charged :
        s'.limiter.calls_today + cost * s.metrics.jobs_run
        ≡ s.limiter.calls_today + cost * s'.metrics.jobs_run

  module _ (clock : ℕ → Moment) (s : Scheduler W) (safe : IsSafe s.limiter) where
    abbrev fresh : Limiter
    fresh = maybe_reset_hour (clock s.calls) s.limiter

    -- With a safe limiter, the hourly rebuild is metered at 200 calls, whatever the rebuild does.
    pub run_registry_rebuild-Metered :
        (rebuild : W → W × Bool)
        → Metered
            (λ x. x.metrics.rebuilds_run)
            cost_registry_rebuild
            s
            (run_registry_rebuild rebuild clock s)
    unfolding run_registry_rebuild
    run_registry_rebuild-Metered rebuild =
        let k = reset-IsSafe (clock s.calls) safe in
        let a = acquire-IsSafe (clock (s.calls + 1)) cost_registry_rebuild k in
        let c = acquire-charges (clock (s.calls + 1)) cost_registry_rebuild fresh in
        let d = reset-today (clock s.calls) s.limiter in
        record {
          safe = ground arith;
          counted = ground arith;
          ended = ground arith;
          charged = ground arith;
        }

    -- With a safe limiter, the daily scan is metered at 800 calls, whatever the scan does.
    pub run_deep_scan-Metered :
        (scan : W → W × Bool)
        → Metered (λ x. x.metrics.deep_scans_run) cost_deep_scan s (run_deep_scan scan clock s)
    unfolding run_deep_scan
    run_deep_scan-Metered scan =
        let k = reset-IsSafe (clock s.calls) safe in
        let a = acquire-IsSafe (clock (s.calls + 1)) cost_deep_scan k in
        let c = acquire-charges (clock (s.calls + 1)) cost_deep_scan fresh in
        let d = reset-today (clock s.calls) s.limiter in
        record {
          safe = ground arith;
          counted = ground arith;
          ended = ground arith;
          charged = ground arith;
        }
