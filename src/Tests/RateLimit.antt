-- ===== src/Tests/RateLimit.antt =====
-- Runs of automation/rate_limiter.py: a limiter of 100 calls an hour with a buffer of 10.
use socio_workspace.Base.{◌+◌, ◌≡◌, ◌≤◌, refl, [], ◌∷◌, arith}
use socio_workspace.RateLimit.{Limiter, Moment}
use socio_workspace.RateLimit.Window.{IsSafe, acquire_all, acquire_all_quota}
use socio_workspace.RateLimit.Steps.{Fleet, here, next, lock, leave_lock, IsSound, Reach-IsSound}
use socio_workspace.RateLimit.{locked}

abbrev pub half_used : Limiter
half_used = record {
  hourly_limit = 100;
  safety_buffer = 10;
  calls_this_hour = 50;
  calls_today = 60;
  backoff_events = 0;
  blocked_events = 0;
  emergency_stops = 0;
  hour_start = 0;
  hour_reset_at = 0;
}

abbrev nearly_used : Limiter
nearly_used = record half_used { calls_this_hour = 88; calls_today = 98 }

abbrev pub soon : Moment
soon = record { checked = 5; restarted = 6; wall = 7 }

pub half_used-IsSafe : IsSafe half_used
half_used-IsSafe = record { within = omega arith; today = omega arith; stops = omega arith }

acquire_all_quota_example :
    let (r', total) = acquire_all ((soon, 30) ∷ (soon, 30) ∷ []) half_used in
    (r'.calls_this_hour ≡ 50 + total) × (50 + total + 10 ≤ 100)
acquire_all_quota_example =
    acquire_all_quota ((soon, 30) ∷ (soon, 30) ∷ []) half_used half_used-IsSafe
      (omega arith, (omega arith, tt))

abbrev idle : Fleet
idle = record { limiter = half_used; entering = 0; holding = []; spent = 0; due = 0 }

abbrev after_call : Fleet
after_call = leave_lock 30 (locked soon 30 half_used).1 (locked soon 30 half_used).0 idle

Reach-IsSound_example : IsSound 60 after_call
Reach-IsSound_example =
    Reach-IsSound (record { safe = half_used-IsSafe; counted = refl })
      (next here (lock soon 30 refl))

abbrev two_entering : Fleet
two_entering = record idle { entering = 2; due = 2 }
