-- ===== src/Tests/Scheduler.antt =====
-- Runs of the jobs of automation/scheduler.py: a world that counts the calls of the handler, which
-- fails on the first one.
use socio_workspace.Base.{
  ℕ, zero, suc, ◌≡◌, refl, Option, none, some, arith, Bool, true, false, List, [], ◌∷◌,
}
use socio_workspace.RateLimit.{Moment}
use socio_workspace.Scheduler.{Scheduler, zero_metrics, returned, run_propagation}
use socio_workspace.Scheduler.Retry.{fails, returns, after_retries, retry_until_return}
use socio_workspace.Scheduler.Queue.{process_queue, drained}
use socio_workspace.Scheduler.Drain.{Ending, process_queue_lem}
use socio_workspace.Tests.RateLimit.{half_used, half_used-IsSafe, soon}

abbrev scheduler : Scheduler ℕ
scheduler = record { world = 0; metrics = zero_metrics; limiter = half_used; calls = 0; slept = [] }

abbrev handler : ℕ → ℕ → ℕ × Bool
handler zero event = (1, false)
handler (suc n) event = (suc (suc n), true)

abbrev broken_handler : ℕ → ℕ → ℕ × Bool
broken_handler n event = (suc n, false)

abbrev working_handler : ℕ → ℕ → ℕ × Bool
working_handler n event = (suc n, true)

abbrev work : ℕ → ℕ × Bool
work n = (suc n, true)

abbrev clock : ℕ → Moment
clock n = soon

retry_until_return_example :
    run_propagation handler 2 7 scheduler ≡ returned (after_retries handler 7 1 2 scheduler)
retry_until_return_example =
    retry_until_return handler 7 2 1 scheduler refl (fails refl (returns refl)) (omega arith)

-- Two events, and between them an entry whose `get_nowait` raises.
abbrev queue : List (Option ℕ)
queue = some 7 ∷ none ∷ some 8 ∷ []

process_queue_lem_example :
    (s' : Scheduler ℕ) × (left : List (Option ℕ)) × (n : ℕ) × (process_queue broken_handler clock 3
        queue scheduler
      ≡ drained s' left n)
    × Ending queue scheduler s' left n
process_queue_lem_example =
    process_queue_lem broken_handler clock 2 queue scheduler half_used-IsSafe
