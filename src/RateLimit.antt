-- ===== src/RateLimit.antt =====
-- automation/rate_limiter.py: the hourly quota of GitHub API calls.
-- `available_quota` is `hourly_limit - safety_buffer` over the integers; both are kept, and each
-- test on the quota is written with the buffer on the other side, so that a buffer above the limit
-- is treated as the source treats it. The usage fraction is a ratio of integers, compared exactly.
-- Times are microseconds of `time.monotonic`. `acquire` is split where the lock is released.
pub mod Window
pub mod Steps
use socio_workspace.Base.{
  ℕ, ◌+◌, ◌-◌, ◌*◌, ◌≤◌, ◌<◌, ◌≡◌, Bool, true, false, ◌⊎◌, inl, inr, refl, List, [], ◌∷◌, arith,
  leb, ltb, ◌==◌, if◌then◌else◌,
}

abbrev pub hour : ℕ
hour = 3_600_000_000

abbrev pub backoff_threshold : ℕ
backoff_threshold = 80

abbrev pub emergency_threshold : ℕ
emergency_threshold = 95

pub record Limiter : Type 0 where
  pub hourly_limit : ℕ
  pub safety_buffer : ℕ
  pub calls_this_hour : ℕ
  pub calls_today : ℕ
  pub backoff_events : ℕ
  pub blocked_events : ℕ
  pub emergency_stops : ℕ
  pub hour_start : ℕ
  pub hour_reset_at : ℕ

-- `RateLimiter(hourly_limit, safety_buffer)`
unfoldable pub new_limiter : ℕ → ℕ → ℕ → ℕ → Limiter
new_limiter hourly_limit safety_buffer monotonic wall = record {
  hourly_limit = hourly_limit;
  safety_buffer = safety_buffer;
  calls_this_hour = 0;
  calls_today = 0;
  backoff_events = 0;
  blocked_events = 0;
  emergency_stops = 0;
  hour_start = monotonic;
  hour_reset_at = wall;
}

-- The readings of the clocks that one call makes: for the elapsed time, for the new start of the
-- window, and of the wall clock.
pub record Moment : Type 0 where
  pub checked : ℕ
  pub restarted : ℕ
  pub wall : ℕ

unfoldable pub maybe_reset_hour : Moment → Limiter → Limiter
maybe_reset_hour t r =
    if leb hour (t.checked - r.hour_start)
    then record r { hour_start = t.restarted; calls_this_hour = 0; hour_reset_at = t.wall }
    else r

-- `usage_fraction() >= percent / 100`, for a positive percentage of at most 100. The quota is zero,
-- negative (the fraction is then at most zero), or positive.
unfoldable pub usage_reaches : ℕ → Limiter → Bool
usage_reaches percent r =
    if r.hourly_limit == r.safety_buffer
    then leb percent 100
    else if ltb r.hourly_limit r.safety_buffer
    then false
    else leb (percent * (r.hourly_limit - r.safety_buffer)) (100 * r.calls_this_hour)

-- What the critical section of `acquire` decides; `granted` carries whether the usage that it read
-- asks for a backoff.
pub data Verdict : Type 0 where
  refused : Verdict
  granted : Bool → Verdict

-- The test after the reset, and what it writes.
unfoldable pub decide : ℕ → Limiter → Limiter × Verdict
unfolding usage_reaches
decide cost r =
    if usage_reaches emergency_threshold r
    then (
      record r { emergency_stops = r.emergency_stops + 1; blocked_events = r.blocked_events + 1 },
      refused,
    )
    else if ltb r.hourly_limit (r.calls_this_hour + cost + r.safety_buffer)
    then (record r { blocked_events = r.blocked_events + 1 }, refused)
    else (
      record r { calls_this_hour = r.calls_this_hour + cost; calls_today = r.calls_today + cost },
      granted (usage_reaches backoff_threshold r),
    )

-- The critical section, under the lock.
unfoldable pub locked : Moment → ℕ → Limiter → Limiter × Verdict
unfolding decide maybe_reset_hour
locked t cost r = decide cost (maybe_reset_hour t r)

-- What follows outside the lock.
unfoldable pub settle : Verdict → Limiter → Limiter × Bool
settle refused r = (r, false)
settle (granted false) r = (r, true)
settle (granted true) r = (record r { backoff_events = r.backoff_events + 1 }, true)

unfoldable pub acquire : Moment → ℕ → Limiter → Limiter × Bool
unfolding locked settle
acquire t cost r = let (r', v) = locked t cost r in settle v r'

-- `remaining`: `max(0, available_quota - calls_this_hour)`, which is the truncated difference.
unfoldable pub remaining : Moment → Limiter → Limiter × ℕ
unfolding maybe_reset_hour
remaining t r =
    let r' = maybe_reset_hour t r in (r', r'.hourly_limit - r'.safety_buffer - r'.calls_this_hour)

-- `seconds_until_reset`, in microseconds.
unfoldable pub until_reset : ℕ → Limiter → ℕ
until_reset now r = hour - (now - r.hour_start)

-- `_backoff_delay(calls / quota)` as a fraction of seconds, numerator and denominator. It is
-- called with a usage of at least 80 %, so the difference is not truncated.
unfoldable pub backoff_delay : ℕ → ℕ → ℕ × ℕ
backoff_delay calls quota = (15 * quota + 49 * (100 * calls - 80 * quota), 1500 * quota)

-- What `get_metrics` returns; the rounded percentage is left out.
pub record Snapshot : Type 0 where
  pub calls_this_hour : ℕ
  pub calls_today : ℕ
  pub remaining_this_hour : ℕ
  pub backoff_events : ℕ
  pub blocked_events : ℕ
  pub emergency_stops : ℕ
  pub seconds_until_reset : ℕ
  pub hour_reset_at : ℕ

-- `get_metrics`; `now` is the reading of the clock for the time until the reset.
unfoldable pub get_metrics : Moment → ℕ → Limiter → Limiter × Snapshot
unfolding maybe_reset_hour until_reset
get_metrics t now r =
    let r' = maybe_reset_hour t r in
    (
      r',
      record {
        calls_this_hour = r'.calls_this_hour;
        calls_today = r'.calls_today;
        remaining_this_hour = r'.hourly_limit - r'.safety_buffer - r'.calls_this_hour;
        backoff_events = r'.backoff_events;
        blocked_events = r'.blocked_events;
        emergency_stops = r'.emergency_stops;
        seconds_until_reset = until_reset now r';
        hour_reset_at = r'.hour_reset_at;
      },
    )
