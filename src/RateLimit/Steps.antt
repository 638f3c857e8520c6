-- ===== src/RateLimit/Steps.antt =====
-- Threads that share a limiter. The critical section of `acquire` is one step; the update of
-- `backoff_events` stands outside the lock, and is a read and a write.
use socio_workspace.Base.{ℕ, suc, ◌+◌, ◌≡◌, true, false, refl, List, [], ◌∷◌, ◌++◌, arith}
use socio_workspace.RateLimit.{Limiter, Moment, Verdict, refused, granted, locked}
use socio_workspace.RateLimit.Window.{IsSafe, decide-IsSafe, reset-IsSafe}

-- `entering` threads have been granted a call at a usage of 80 % and have not yet read the counter;
-- `holding` are the values that others have read and not yet written back. `spent` and `due` count
-- the costs granted and the backoffs owed since the start.
pub record Fleet : Type 0 where
  pub limiter : Limiter
  pub entering : ℕ
  pub holding : List ℕ
  pub spent : ℕ
  pub due : ℕ

-- What a thread takes out of the critical section.
unfoldable pub leave_lock : ℕ → Verdict → Limiter → Fleet → Fleet
leave_lock cost refused r f = record f { limiter = r }
leave_lock cost (granted false) r f = record f { limiter = r; spent = f.spent + cost }
leave_lock cost (granted true) r f = record f {
  limiter = r;
  spent = f.spent + cost;
  entering = f.entering + 1;
  due = f.due + 1;
}

pub data Step (f g : Fleet) : Type 0 where
  lock :
      (t : Moment) (cost : ℕ)
      → g ≡ leave_lock cost (locked t cost f.limiter).1 (locked t cost f.limiter).0 f
      → Step f g
  read :
      (n : ℕ)
      → f.entering ≡ suc n
      → g ≡ record f { entering = n; holding = f.limiter.backoff_events ∷ f.holding }
      → Step f g
  write :
      (before : List ℕ) (v : ℕ) (after : List ℕ)
      → f.holding ≡ before ++ v ∷ after
      → g ≡ record f {
        limiter = record f.limiter { backoff_events = v + 1 };
        holding = before ++ after;
      }
      → Step f g

pub data Reach (f : Fleet) : Fleet → Type 0 where
  here : Reach f f
  next : {g h : Fleet} → Reach f g → Step g h → Reach f h

-- The invariant of a fleet that started with `base` calls in the day.
pub record IsSound (base : ℕ) (f : Fleet) : Type 0 where
  pub safe : IsSafe f.limiter
  pub counted : f.limiter.calls_today ≡ base + f.spent

lock-IsSound :
    (t : Moment) (cost : ℕ) {base : ℕ} {f : Fleet}
    → IsSound base f
    → IsSound base (leave_lock cost (locked t cost f.limiter).1 (locked t cost f.limiter).0 f)
unfolding locked leave_lock
lock-IsSound t cost {base} {f} s =
    let d = decide-IsSafe cost (reset-IsSafe t s.safe) in ground arith

Step-IsSound : {base : ℕ} {f g : Fleet} → Step f g → IsSound base f → IsSound base g
Step-IsSound (lock t cost e) s = rw e (lock-IsSound t cost s)
Step-IsSound (read n w e) s = ground arith
Step-IsSound (write before v after w e) s = ground arith

-- From a fleet with safe counters, however the threads interleave, also between the lock and the
-- update that stands outside it, the calls of the hour stay within the quota and every granted cost
-- is charged to the day once.
pub Reach-IsSound : {base : ℕ} {f g : Fleet} → IsSound base f → Reach f g → IsSound base g
Reach-IsSound s here = s
Reach-IsSound s (next r st) = Step-IsSound st (Reach-IsSound s r)

-- Two threads that were granted a call at a usage of 80 % can leave the counter of backoffs at one
-- above what it was: the second write overwrites the first.
pub backoff_lost :
    (f : Fleet)
    → f.entering ≡ 2
    → f.holding ≡ []
    → (g : Fleet) × Reach f g
      × (g.entering ≡ 0)
      × (g.holding ≡ [])
      × (g.limiter.backoff_events ≡ f.limiter.backoff_events + 1)
backoff_lost f e h =
    let n = f.limiter.backoff_events in
    let f1 : Fleet = record f { entering = 1; holding = n ∷ [] } in
    let f2 : Fleet = record f { entering = 0; holding = n ∷ n ∷ [] } in
    let f3 : Fleet = record f {
      entering = 0;
      holding = n ∷ [];
      limiter = record f.limiter { backoff_events = n + 1 };
    } in
    let f4 : Fleet = record f {
      entering = 0;
      holding = [];
      limiter = record f.limiter { backoff_events = n + 1 };
    } in
    let s1 : Step f f1 = read 1 e (ground arith) in
    let s2 : Step f1 f2 = read 0 refl (ground arith) in
    let s3 : Step f2 f3 = write [] n (n ∷ []) refl refl in
    let s4 : Step f3 f4 = write [] n [] refl refl in
    (f4, next (next (next (next here s1) s2) s3) s4, refl, refl, refl)
