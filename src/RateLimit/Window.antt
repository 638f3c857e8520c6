-- ===== src/RateLimit/Window.antt =====
-- The quota of one window: what `acquire` may and may not do to the counters.
use socio_workspace.Base.{
  ◌⊎◌, ℕ, ◌+◌, ◌-◌, ◌*◌, ◌≤◌, ◌<◌, ◌≡◌, true, refl, arith, if◌then◌else◌, ◌↔◌, inl, inr, Bool-cases,
  All, List, [], ◌∷◌,
}
use socio_workspace.RateLimit.{
  Limiter, Moment, maybe_reset_hour, decide, acquire, backoff_delay, hour, get_metrics, remaining,
  until_reset, refused,
}

-- The counters of a limiter whose buffer leaves a quota.
pub record IsSafe (r : Limiter) : Type 0 where
  pub within : r.calls_this_hour + r.safety_buffer ≤ r.hourly_limit
  pub today : r.calls_this_hour ≤ r.calls_today
  pub stops : r.emergency_stops ≤ r.blocked_events

pub reset-IsSafe : (t : Moment) {r : Limiter} → IsSafe r → IsSafe (maybe_reset_hour t r)
unfolding maybe_reset_hour
reset-IsSafe t s = ground arith

pub decide-IsSafe : (cost : ℕ) {r : Limiter} → IsSafe r → IsSafe (decide cost r).0
unfolding decide
decide-IsSafe cost s = ground arith

-- For a limiter with safe counters, whatever the clocks say and whatever is asked for, `acquire`
-- keeps the calls of the window within the quota, within the calls of the day, and the emergency
-- stops within the blocked calls.
pub acquire-IsSafe : (t : Moment) (cost : ℕ) {r : Limiter} → IsSafe r → IsSafe (acquire t cost r).0
unfolding acquire
acquire-IsSafe t cost {r} s = let d = decide-IsSafe cost (reset-IsSafe t s) in ground arith

-- The calls of the day grow by what is granted, whether or not the hour is over.
pub acquire-charges :
    (t : Moment) (cost : ℕ) (r : Limiter)
    → (acquire t cost r).0.calls_today ≡ r.calls_today + (if (acquire t cost r).1 then cost else 0)
unfolding acquire
acquire-charges t cost r = ground arith

-- What a call does within a window of a positive quota: it is granted exactly if the usage is below
-- 95 % and the cost fits in the quota; the cost is then charged to the hour and to the day, and
-- otherwise nothing is charged and the blocked calls grow by one.
pub acquire_within_window :
    (t : Moment) (cost : ℕ) (r : Limiter)
    → r.safety_buffer < r.hourly_limit
    → t.checked < r.hour_start + hour
    → let (r', ok) = acquire t cost r in
      let quota = r.hourly_limit - r.safety_buffer in
      ((ok ≡ true) ↔ ((100 * r.calls_this_hour < 95 * quota) × (r.calls_this_hour + cost ≤ quota)))
      × (r'.calls_this_hour ≡ r.calls_this_hour + (if ok then cost else 0))
      × (r'.calls_today ≡ r.calls_today + (if ok then cost else 0))
      × (r'.blocked_events ≡ r.blocked_events + (if ok then 0 else 1))
unfolding acquire
acquire_within_window t cost r q w = (ground arith, ground arith, ground arith, ground arith)

-- A schedule of calls, with the sum of the costs that were granted.
unfoldable pub acquire_all : List (Moment × ℕ) → Limiter → Limiter × ℕ
acquire_all [] r = (r, 0)
acquire_all ((t, cost) ∷ calls) r =
    let (r', ok) = acquire t cost r in
    let (r'', n) = acquire_all calls r' in (r'', (if ok then cost else 0) + n)

abbrev InWindow : Limiter → List (Moment × ℕ) → Type 0
InWindow r calls = All (λ c. c.0.checked < r.hour_start + hour) calls

in_window_step :
    (t : Moment) (cost : ℕ) (r : Limiter)
    → t.checked < r.hour_start + hour
    → let r' = (acquire t cost r).0 in
      (r'.hour_start ≡ r.hour_start)
      × (r'.hourly_limit ≡ r.hourly_limit)
      × (r'.safety_buffer ≡ r.safety_buffer)
      × (r'.calls_this_hour ≡ r.calls_this_hour + (if (acquire t cost r).1 then cost else 0))
unfolding acquire
in_window_step t cost r w = ground arith

-- However many calls are made in one window to a limiter with safe counters, of whatever costs, all
-- that is granted together with what had been spent before stays within the quota, and the window's
-- counter is exact.
pub acquire_all_quota :
    (calls : List (Moment × ℕ)) (r : Limiter)
    → IsSafe r
    → InWindow r calls
    → let (r', total) = acquire_all calls r in
      (r'.calls_this_hour ≡ r.calls_this_hour + total)
      × (r.calls_this_hour + total + r.safety_buffer ≤ r.hourly_limit)
unfolding acquire_all
acquire_all_quota [] r s w = omega (arith, s.within)
acquire_all_quota ((t, cost) ∷ calls) r s w =
    let (start, limit, buffer, spent) = in_window_step t cost r w.0 in
    let ih =
      acquire_all_quota calls (acquire t cost r).0 (acquire-IsSafe t cost s) (rw start w.1) in
    ground arith

-- Once the usage is at 95 % of a positive quota, no call of the window is granted any more.
pub acquire_all_emergency :
    (calls : List (Moment × ℕ)) (r : Limiter)
    → r.safety_buffer < r.hourly_limit
    → 95 * (r.hourly_limit - r.safety_buffer) ≤ 100 * r.calls_this_hour
    → InWindow r calls
    → ((acquire_all calls r).1 ≡ 0) × ((acquire_all calls r).0.calls_this_hour ≡ r.calls_this_hour)
unfolding acquire_all
acquire_all_emergency [] r q e w = (refl, refl)
acquire_all_emergency ((t, cost) ∷ calls) r q e w =
    let (exact, spent, _, _) = acquire_within_window t cost r q w.0 in
    let (start, limit, buffer, _) = in_window_step t cost r w.0 in
    elim (Bool-cases (acquire t cost r).1) [
      | inl ok ↦ absurd (omega (arith, (exact.0 ok).0))
      | inr no_grant ↦
          let same : (acquire t cost r).0.calls_this_hour ≡ r.calls_this_hour = ground arith in
          let ih =
            acquire_all_emergency calls (acquire t cost r).0 (omega arith) (omega arith)
              (rw start w.1) in
          (ground arith, ground arith)
    ]

-- From 80 % up to 95 % of the quota, the pause is at least 10 ms and below half a second.
pub backoff_delay_bounds :
    (calls quota : ℕ)
    → 80 * quota ≤ 100 * calls
    → 100 * calls < 95 * quota
    → let (num, den) = backoff_delay calls quota in (den ≤ 100 * num) × (2 * num < den)
unfolding backoff_delay
backoff_delay_bounds calls quota lo hi = omega arith

-- A snapshot of a limiter that keeps within its quota adds up: the calls of the hour, what remains
-- and the buffer are the limit; what remains is what `remaining` answers at the same moment; a call
-- made at that moment right after is refused if it costs more, and the time until the reset is at
-- most an hour.
pub get_metrics_lem :
    (t : Moment) (now cost : ℕ) (r : Limiter)
    → IsSafe r
    → let (r', m) = get_metrics t now r in
      (m.calls_this_hour + m.remaining_this_hour + r'.safety_buffer ≡ r'.hourly_limit)
      × (m.remaining_this_hour ≡ (remaining t r).1)
      × ((cost ≤ m.remaining_this_hour) ⊎ ((decide cost r').1 ≡ refused))
      × (m.seconds_until_reset ≤ hour)
unfolding get_metrics remaining decide until_reset
get_metrics_lem t now cost r s =
    let k = reset-IsSafe t s in
    (omega (arith, k.within), refl, ground (arith, k.within), ground arith)
