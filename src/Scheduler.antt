-- ===== src/Scheduler.antt =====
-- automation/scheduler.py: the jobs that spend API calls, the drain of the event queue and the
-- retries of a failed propagation.
-- The propagation handler, the registry rebuild and the deep scan are parameters: functions on a
-- state of the world that answer whether they returned or raised. The queue is what the consumer
-- finds pending, oldest first; an entry `none` is one whose `get_nowait` raises, and is gone then.
-- Events that arrive during a drain are not modelled.
pub mod Retry
pub mod Moved
pub mod Queue
pub mod Drain
pub mod Jobs
pub mod Unmetered
use socio_workspace.Base.{ℕ, zero, suc, ◌+◌, ◌^◌, Bool, true, false, List, [], ◌∷◌, if◌then◌else◌}
use socio_workspace.RateLimit.{
  Limiter, Moment, maybe_reset_hour, usage_reaches, backoff_threshold, acquire,
}

abbrev pub cost_registry_rebuild : ℕ
cost_registry_rebuild = 200

abbrev pub cost_deep_scan : ℕ
cost_deep_scan = 800

abbrev pub cost_process_event : ℕ
cost_process_event = 10

pub record Metrics : Type 0 where
  pub jobs_run : ℕ
  pub jobs_failed : ℕ
  pub jobs_skipped : ℕ
  pub events_processed : ℕ
  pub rebuilds_run : ℕ
  pub deep_scans_run : ℕ

abbrev pub zero_metrics : Metrics
zero_metrics = record {
  jobs_run = 0;
  jobs_failed = 0;
  jobs_skipped = 0;
  events_processed = 0;
  rebuilds_run = 0;
  deep_scans_run = 0;
}

-- `slept` is the log of the pauses of the retry helper in seconds, the last one first; `calls`
-- counts the readings taken from the clock of the limiter.
pub record Scheduler (W : Type 0) : Type 0 where
  pub world : W
  pub metrics : Metrics
  pub limiter : Limiter
  pub calls : ℕ
  pub slept : List ℕ

-- How a job ends.
pub data Outcome (W : Type 0) : Type 0 where
  returned raised : Scheduler W → Outcome W

module _ {W : Type 0} where
  -- `self.rate_limiter.usage_fraction() >= BACKOFF_USAGE_THRESHOLD`
  unfoldable pub is_busy : (ℕ → Moment) → Scheduler W → Scheduler W × Bool
  is_busy clock s =
      let r = maybe_reset_hour (clock s.calls) s.limiter in
      (record s { limiter = r; calls = s.calls + 1 }, usage_reaches backoff_threshold r)

  -- `self.rate_limiter.acquire(cost=cost)`
  unfoldable pub pay : (ℕ → Moment) → ℕ → Scheduler W → Scheduler W × Bool
  pay clock cost s =
      let (r, ok) = acquire (clock s.calls) cost s.limiter in
      (record s { limiter = r; calls = s.calls + 1 }, ok)

  unfoldable pub skip : Scheduler W → Scheduler W
  skip s = record s { metrics = record s.metrics { jobs_skipped = s.metrics.jobs_skipped + 1 } }

  unfoldable pub start_job : Scheduler W → Scheduler W
  start_job s = record s { metrics = record s.metrics { jobs_run = s.metrics.jobs_run + 1 } }

  unfoldable pub fail_job : Scheduler W → Scheduler W
  fail_job s = record s { metrics = record s.metrics { jobs_failed = s.metrics.jobs_failed + 1 } }

  -- The two guards that `_run_registry_rebuild` and `_run_deep_scan` begin with.
  unfoldable pub admit : (ℕ → Moment) → ℕ → Scheduler W → Scheduler W × Bool
  unfolding is_busy pay skip
  admit clock cost s =
      let (s1, busy) = is_busy clock s in
      let (s2, ok) = pay clock cost s1 in
      if busy then (skip s1, false) else if ok then (s2, true) else (skip s2, false)

  unfoldable pub finish_rebuild : W → Bool → Scheduler W → Scheduler W
  unfolding fail_job
  finish_rebuild w true s = record s {
    world = w;
    metrics = record s.metrics { rebuilds_run = s.metrics.rebuilds_run + 1 };
  }
  finish_rebuild w false s = fail_job (record s { world = w })

  -- `_run_registry_rebuild`
  unfoldable pub run_registry_rebuild : (W → W × Bool) → (ℕ → Moment) → Scheduler W → Scheduler W
  unfolding admit start_job finish_rebuild
  run_registry_rebuild rebuild clock s =
      let (s', go) = admit clock cost_registry_rebuild s in
      let (w, ok) = rebuild s'.world in if go then finish_rebuild w ok (start_job s') else s'

  unfoldable pub finish_scan : W → Bool → Scheduler W → Scheduler W
  unfolding fail_job
  finish_scan w true s = record s {
    world = w;
    metrics = record s.metrics { deep_scans_run = s.metrics.deep_scans_run + 1 };
  }
  finish_scan w false s = fail_job (record s { world = w })

  -- `_run_deep_scan`
  unfoldable pub run_deep_scan : (W → W × Bool) → (ℕ → Moment) → Scheduler W → Scheduler W
  unfolding admit start_job finish_scan
  run_deep_scan scan clock s =
      let (s', go) = admit clock cost_deep_scan s in
      let (w, ok) = scan s'.world in if go then finish_scan w ok (start_job s') else s'

  -- `except Exception` in the loop of the retry helper: a call that raised goes on to the next
  -- attempt.
  unfoldable pub or_retry : Outcome W → (Scheduler W → Outcome W) → Outcome W
  or_retry (returned s) next = returned s
  or_retry (raised s) next = next s

  -- `_exponential_retry(fn, arg)` from `attempt` on, with `left` attempts still to make and a base
  -- delay of two seconds. When none is left it logs and returns.
  unfoldable pub exponential_retry : (Scheduler W → Outcome W) → ℕ → ℕ → Scheduler W → Outcome W
  unfolding or_retry
  exponential_retry fn zero attempt s = returned s
  exponential_retry fn (suc left) attempt s =
      or_retry (fn (record s { slept = (2 ^ attempt) ∷ s.slept }))
        (λ s'. exponential_retry fn left (attempt + 1) s')

  module _ {E : Type 0} (handler : W → E → W × Bool) where
    unfoldable pub handled : W → Scheduler W → Scheduler W
    handled w s = record s {
      world = w;
      metrics = record s.metrics { events_processed = s.metrics.events_processed + 1 };
    }

    -- `_run_propagation`, which retries itself. `depth` is the number of its nested calls that the
    -- interpreter's stack has room for: the next one raises `RecursionError`, which is an
    -- `Exception` and is caught where the retry helper calls it.
    unfoldable pub run_propagation : ℕ → E → Scheduler W → Outcome W
    unfolding start_job fail_job handled exponential_retry
    run_propagation zero event s = raised s
    run_propagation (suc depth) event s =
        let (w, ok) = handler s.world event in
        let failed = fail_job (record (start_job s) { world = w }) in
        if ok
        then returned (handled w (start_job s))
        else exponential_retry (run_propagation depth event) 3 1 failed
