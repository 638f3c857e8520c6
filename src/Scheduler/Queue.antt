-- ===== src/Scheduler/Queue.antt =====
-- `_process_queue` of automation/scheduler.py: the drain of the event queue under the rate limiter.
use socio_workspace.Base.{ℕ, ◌+◌, Bool, Option, none, some, List, [], ◌∷◌, if◌then◌else◌}
use socio_workspace.RateLimit.{Moment}
use socio_workspace.Scheduler.{
  Scheduler, Outcome, returned, raised, run_propagation, is_busy, pay, skip, cost_process_event,
}

-- How a drain ends: with what is left of the queue and the count of the events that it took, or
-- with the exception of a propagation.
pub data Drained (W E : Type 0) : Type 0 where
  drained : Scheduler W → List (Option E) → ℕ → Drained W E
  escaped : Scheduler W → Drained W E

module _ {W E : Type 0} where
  -- What follows the propagation of the first event.
  unfoldable pub and_go_on : Outcome W → (Scheduler W → Drained W E) → Drained W E
  and_go_on (returned s) next = next s
  and_go_on (raised s) next = escaped s

  unfoldable pub count_one : Drained W E → Drained W E
  count_one (drained s left n) = drained s left (n + 1)
  count_one (escaped s) = escaped s

  -- `_process_queue`; `depth` is the room for nested calls of each propagation.
  unfoldable pub process_queue :
      (W → E → W × Bool) → (ℕ → Moment) → ℕ → List (Option E) → Scheduler W → Drained W E
  unfolding and_go_on count_one
  process_queue handler clock depth [] s = drained s [] 0
  process_queue handler clock depth (none ∷ queue) s =
      let (s1, busy) = is_busy clock s in
      let (s2, ok) = pay clock cost_process_event s1 in
      if busy
      then drained (skip s1) (none ∷ queue) 0
      else if ok
      then drained s2 queue 0
      else drained (skip s2) (none ∷ queue) 0
  process_queue handler clock depth (some event ∷ queue) s =
      let (s1, busy) = is_busy clock s in
      let (s2, ok) = pay clock cost_process_event s1 in
      let rest =
        and_go_on (run_propagation handler depth event s2)
          (λ s3. count_one (process_queue handler clock depth queue s3)) in
      if busy
      then drained (skip s1) (some event ∷ queue) 0
      else if ok
      then rest
      else drained (skip s2) (some event ∷ queue) 0
