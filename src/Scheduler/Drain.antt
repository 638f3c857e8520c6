-- ===== src/Scheduler/Drain.antt =====
-- What a run of `_process_queue` of automation/scheduler.py takes, charges, counts and leaves.
use socio_workspace.Base.{
  ℕ, suc, ◌+◌, ◌*◌, ◌≤◌, ◌≡◌, ◌⊎◌, inl, inr, refl, sym, ap, subst, Bool, true, false, Option, none,
  some, List, [], ◌∷◌, ◌++◌, map, arith, length, Bool-cases,
}
use socio_workspace.RateLimit.{Moment}
use socio_workspace.RateLimit.Window.{IsSafe}
use socio_workspace.Scheduler.Moved.{Moved, Moved-trans, Moved-busy, Moved-pay, Moved-skip}
use socio_workspace.Scheduler.Retry.{run-ends}
use socio_workspace.Scheduler.{
  Scheduler, returned, run_propagation, is_busy, pay, skip, cost_process_event,
}
use socio_workspace.Scheduler.Queue.{drained, process_queue}

-- One if something is left, else zero.
abbrev pub one_if_left {ℓ} : {E : Type ℓ} → List E → ℕ
one_if_left [] = 0
one_if_left (_ ∷ _) = 1

module _ {W : Type 0} where
  -- The two guards in front of an entry.
  data Guarded (clock : ℕ → Moment) (s : Scheduler W) : Type 0 where
    is_backed_off :
        Moved s (skip (is_busy clock s).0) 0 0 1 → (is_busy clock s).1 ≡ true → Guarded clock s
    is_refused :
        Moved s (skip (pay clock cost_process_event (is_busy clock s).0).0) 0 0 1
        → (is_busy clock s).1 ≡ false
        → (pay clock cost_process_event (is_busy clock s).0).1 ≡ false
        → Guarded clock s
    passes :
        Moved s (pay clock cost_process_event (is_busy clock s).0).0 cost_process_event 0 0
        → (is_busy clock s).1 ≡ false
        → (pay clock cost_process_event (is_busy clock s).0).1 ≡ true
        → Guarded clock s

  guards : (clock : ℕ → Moment) (s : Scheduler W) → IsSafe s.limiter → Guarded clock s
  guards clock s safe =
      let s1 = (is_busy clock s).0 in
      let s2 = (pay clock cost_process_event s1).0 in
      let m1 = Moved-busy clock s safe in
      let m2 = Moved-pay clock cost_process_event s1 m1.safe in
      elim (Bool-cases (is_busy clock s).1) [
        | inl busy ↦ is_backed_off (Moved-trans m1 (Moved-skip s1 m1.safe)) busy
        | inr free ↦ elim (Bool-cases (pay clock cost_process_event s1).1) [
          | inl paid ↦
              let p2 : Moved s1 s2 cost_process_event 0 0 = rw paid at m2 in
              passes (Moved-trans m1 p2) free paid
          | inr unpaid ↦
              let p2 : Moved s1 s2 0 0 0 = rw unpaid at m2 in
              is_refused (Moved-trans m1 (Moved-trans p2 (Moved-skip s2 p2.safe))) free unpaid
        ]
      ]

module _ {W E : Type 0} where
  -- How a drain has gone on: it took some events, and stopped at the end or at a guard, or at an
  -- entry whose `get_nowait` raised. `counted` of the events were counted as processed.
  pub record Ending (queue : List (Option E)) (s s' : Scheduler W) (left : List (Option E)) (n : ℕ)
      : Type 0 where
    pub taken : List E
    pub number : length taken ≡ n
    pub counted : ℕ
    pub at_most : counted ≤ n
    pub stop :
        ((queue ≡ map some taken ++ left)
          × Moved s s' (cost_process_event * n) counted (one_if_left left))
        ⊎ ((queue ≡ map some taken ++ (none ∷ left))
            × Moved s s' (cost_process_event * n + cost_process_event) counted 0)

  stopped :
      (x : Option E) (queue : List (Option E)) (s s1 : Scheduler W)
      → Moved s s1 0 0 1
      → Ending (x ∷ queue) s s1 (x ∷ queue) 0
  stopped x queue s s1 m = record {
    taken = [];
    number = refl;
    counted = 0;
    at_most = omega arith;
    stop = inl (refl, m);
  }

  go_on :
      (event : E) (queue : List (Option E)) (s s3 s' : Scheduler W) (left : List (Option E))
      (n k : ℕ)
      → Moved s s3 cost_process_event k 0
      → k ≤ 1
      → Ending queue s3 s' left n
      → Ending (some event ∷ queue) s s' left (n + 1)
  go_on event queue s s3 s' left n k m h ending = record {
    taken = event ∷ ending.taken;
    number = omega (arith, ending.number);
    counted = k + ending.counted;
    at_most = omega (arith, ending.at_most, h);
    stop = elim ending.stop [
      | inl (e, t) ↦ let u = Moved-trans m t in inl (ap (λ q. some event ∷ q) e, omega (arith, u))
      | inr (e, t) ↦ let u = Moved-trans m t in inr (ap (λ q. some event ∷ q) e, omega (arith, u))
    ];
  }

  -- A propagation moves what its payment moved, and counts at most one event.
  run-Moved :
      (handler : W → E → W × Bool) (depth : ℕ) (event : E) (s s2 : Scheduler W)
      → Moved s s2 cost_process_event 0 0
      → (s3 : Scheduler W) × (run_propagation handler (suc depth) event s2 ≡ returned s3)
        × (k : ℕ) × (k ≤ 1)
        × Moved s s3 cost_process_event k 0
  run-Moved handler depth event s s2 m =
      let (s3, ran, limiter, skips, events) = run-ends handler event depth s2 in
      let safe : IsSafe s3.limiter = subst IsSafe (sym limiter) m.safe in
      let day = ap (λ r. r.calls_today) limiter in
      elim events [
        | inl same ↦ (
          s3,
          ran,
          0,
          omega arith,
          record {
            safe = safe;
            charged = omega (arith, m.charged, day);
            processed = omega (arith, m.processed, same);
            skipped = omega (arith, m.skipped, skips);
          },
        )
        | inr more ↦ (
          s3,
          ran,
          1,
          omega arith,
          record {
            safe = safe;
            charged = omega (arith, m.charged, day);
            processed = omega (arith, m.processed, more);
            skipped = omega (arith, m.skipped, skips);
          },
        )
      ]

  -- A drain that starts with a safe limiter, where there is room for a propagation, ends. It has
  -- taken events from the front of the queue, in order. It charged ten calls for each of them, kept
  -- the limiter safe, and counted at most that many as processed. Then either the rest of the queue
  -- is left and a skipped job was counted exactly if that is not empty; or the next entry was one
  -- whose `get_nowait` raised: it is gone, ten more calls were charged for it, and no skipped job
  -- was counted whatever is left.
  pub process_queue_lem :
      (handler : W → E → W × Bool) (clock : ℕ → Moment) (depth : ℕ) (queue : List (Option E))
      (s : Scheduler W)
      → IsSafe s.limiter
      → (s' : Scheduler W) × (left : List (Option E)) × (n : ℕ) × (process_queue handler clock
            (suc depth)
            queue
            s
          ≡ drained s' left n)
        × Ending queue s s' left n
  unfolding process_queue
  process_queue_lem handler clock depth [] s safe = (
    s,
    [],
    0,
    refl,
    record {
      taken = [];
      number = refl;
      counted = 0;
      at_most = omega arith;
      stop = inl (refl, omega (arith, safe));
    },
  )
  process_queue_lem handler clock depth (none ∷ queue) s safe = elim (guards clock s safe) [
    | is_backed_off m busy ↦
        let s1 = skip (is_busy clock s).0 in
        (s1, none ∷ queue, 0, rw busy refl, stopped none queue s s1 m)
    | is_refused m free unpaid ↦
        let s2 = skip (pay clock cost_process_event (is_busy clock s).0).0 in
        (s2, none ∷ queue, 0, rw (free, unpaid) refl, stopped none queue s s2 m)
    | passes m free paid ↦
        let s2 = (pay clock cost_process_event (is_busy clock s).0).0 in
        (
          s2,
          queue,
          0,
          rw (free, paid) refl,
          record {
            taken = [];
            number = refl;
            counted = 0;
            at_most = omega arith;
            stop = inr (refl, m);
          },
        )
  ]
  process_queue_lem handler clock depth (some event ∷ queue) s safe = elim (guards clock s safe) [
    | is_backed_off m busy ↦
        let s1 = skip (is_busy clock s).0 in
        (s1, some event ∷ queue, 0, rw busy refl, stopped (some event) queue s s1 m)
    | is_refused m free unpaid ↦
        let s2 = skip (pay clock cost_process_event (is_busy clock s).0).0 in
        (s2, some event ∷ queue, 0, rw (free, unpaid) refl, stopped (some event) queue s s2 m)
    | passes m free paid ↦
        let s2 = (pay clock cost_process_event (is_busy clock s).0).0 in
        let (s3, ran, k, few, moved) = run-Moved handler depth event s s2 m in
        let (s', left, n, rest, ending) =
          process_queue_lem handler clock depth queue s3 moved.safe in
        (
          s',
          left,
          n + 1,
          rw (free, paid, ran, rest) refl,
          go_on event queue s s3 s' left n k moved few ending,
        )
  ]
