-- ===== src/Scheduler/Moved.antt =====
-- What a step of a job may change: the calls charged to the day and the counters.
use socio_workspace.Base.{ℕ, ◌+◌, ◌≡◌, arith, if◌then◌else◌}
use socio_workspace.RateLimit.{Moment, maybe_reset_hour}
use socio_workspace.RateLimit.Window.{IsSafe, acquire-IsSafe, acquire-charges, reset-IsSafe}
use socio_workspace.Scheduler.{Scheduler, is_busy, pay, skip}

module _ {W : Type 0} where
  -- `s'` comes after `s`, with so many more calls charged to the day, events processed and jobs
  -- skipped, and its limiter is safe.
  pub record Moved (s s' : Scheduler W) (charge events skips : ℕ) : Type 0 where
    pub safe : IsSafe s'.limiter
    pub charged : s'.limiter.calls_today ≡ s.limiter.calls_today + charge
    pub processed : s'.metrics.events_processed ≡ s.metrics.events_processed + events
    pub skipped : s'.metrics.jobs_skipped ≡ s.metrics.jobs_skipped + skips

  pub Moved-trans :
      {s t u : Scheduler W} {a b c d e f : ℕ}
      → Moved s t a b c
      → Moved t u d e f
      → Moved s u (a + d) (b + e) (c + f)
  Moved-trans p q = record {
    safe = q.safe;
    charged = omega (arith, p.charged, q.charged);
    processed = omega (arith, p.processed, q.processed);
    skipped = omega (arith, p.skipped, q.skipped);
  }

  pub Moved-busy :
      (clock : ℕ → Moment) (s : Scheduler W) → IsSafe s.limiter → Moved s (is_busy clock s).0 0 0 0
  unfolding is_busy maybe_reset_hour
  Moved-busy clock s h = let k = reset-IsSafe (clock s.calls) h in ground arith

  pub Moved-pay :
      (clock : ℕ → Moment) (cost : ℕ) (s : Scheduler W)
      → IsSafe s.limiter
      → Moved s (pay clock cost s).0 (if (pay clock cost s).1 then cost else 0) 0 0
  unfolding pay
  Moved-pay clock cost s h = record {
    safe = acquire-IsSafe (clock s.calls) cost h;
    charged = acquire-charges (clock s.calls) cost s.limiter;
    processed = omega arith;
    skipped = omega arith;
  }

  pub Moved-skip : (s : Scheduler W) → IsSafe s.limiter → Moved s (skip s) 0 0 1
  unfolding skip
  Moved-skip s h = ground arith
