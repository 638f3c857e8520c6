-- ===== src/DurableQueue/Consumers/Crashed.antt =====
-- What the crash of a process costs the queue of automation/durable_queue.py.
use socio_workspace.Base.{ℕ, ◌+◌, ◌≤◌, ◌≡◌, ap, Option, List, [], ◌∷◌, ◌++◌, String, arith}
use socio_workspace.DurableQueue.{ItemId}
use socio_workspace.DurableQueue.Consumers.{
  Consumer, idle, trying, holding, unlinked, crashed, Shared, advance, count, named, System, Step,
  write, move, crash, Steps, done, then_step, start,
}
use socio_workspace.DurableQueue.Consumers.Conserved.{total, claims, hand, holds, holders}
use socio_workspace.DurableQueue.Consumers.Once.{start-IsFair, Steps-IsFair}

-- What the dead processes hold.
dead : ItemId → Consumer → ℕ
dead i (crashed c) = holds i c
dead i c = 0

dead_all : ItemId → List Consumer → ℕ
dead_all i [] = 0
dead_all i (c ∷ cs) = dead i c + dead_all i cs

dead_all-append :
    (i : ItemId) (xs : List Consumer) (c : Consumer) (ys : List Consumer)
    → dead_all i (xs ++ (c ∷ ys)) ≡ dead i c + (dead_all i xs + dead_all i ys)
unfolding dead_all
dead_all-append i [] c ys = omega arith
dead_all-append i (x ∷ xs) c ys = omega (arith, dead_all-append i xs c ys)

dead-le-holds : (i : ItemId) (c : Consumer) → dead i c ≤ holds i c
unfolding dead holds claims hand
dead-le-holds i idle = omega arith
dead-le-holds i (trying ids) = omega arith
dead-le-holds i (holding j) = omega arith
dead-le-holds i (unlinked file) = omega arith
dead-le-holds i (crashed c) = omega arith

dead_all-le-holders : (i : ItemId) (cs : List Consumer) → dead_all i cs ≤ holders i cs
unfolding dead_all holders
dead_all-le-holders i [] = omega arith
dead_all-le-holders i (c ∷ cs) = omega (arith, dead-le-holds i c, dead_all-le-holders i cs)

module _ {V : Type 0} (loads : String → Option V) where
  dead-advance :
      (i : ItemId) (c : Consumer) (sh : Shared) → dead i c ≤ dead i (advance loads c sh).0
  unfolding dead advance
  dead-advance i idle sh = omega arith
  dead-advance i (trying ids) sh = omega arith
  dead-advance i (holding j) sh = omega arith
  dead-advance i (unlinked file) sh = omega arith
  dead-advance i (crashed c) sh = omega arith

  dead_all-Step :
      (i : ItemId) (s t : System) → Step loads s t → dead_all i s.consumers ≤ dead_all i t.consumers
  unfolding dead
  dead_all-Step i s _ (write j text new) = omega arith
  dead_all-Step i s _ (move xs c ys e) = omega (
    arith,
    ap (dead_all i) e,
    dead_all-append i xs c ys,
    dead_all-append i xs (advance loads c s.shared).0 ys,
    dead-advance i c s.shared,
  )
  dead_all-Step i s _ (crash xs c ys e) = omega (
    arith,
    ap (dead_all i) e,
    dead_all-append i xs c ys,
    dead_all-append i xs (crashed c) ys,
    dead-le-holds i c,
  )

  dead_all-Steps :
      (i : ItemId) (s t : System)
      → Steps loads s t
      → dead_all i s.consumers ≤ dead_all i t.consumers
  dead_all-Steps i s _ done = omega arith
  dead_all-Steps i s t (then_step {t = u} steps step) =
      omega (arith, dead_all-Steps i s u steps, dead_all-Step i u t step)

  -- If a process died after it claimed a file and before it returned its entry, then however the
  -- system goes on, the entry is never returned and is never pending again.
  pub crash_loses :
      (n : ℕ) (s t : System) (i : ItemId) (c : Consumer) (xs ys : List Consumer)
      → Steps loads (start n) s
      → s.consumers ≡ xs ++ (crashed c ∷ ys)
      → holds i c ≡ 1
      → Steps loads s t
      → (count (named i) t.shared.returned ≡ 0) × (count (named i) t.shared.directory.pending ≡ 0)
  unfolding dead total
  crash_loses n s t i c xs ys before e one after =
      let v =
        Steps-IsFair loads s t after (Steps-IsFair loads (start n) s before (start-IsFair n)) in
      let stuck : 1 ≤ holders i t.consumers = omega (
        arith,
        one,
        ap (dead_all i) e,
        dead_all-append i xs (crashed c) ys,
        dead_all-Steps i s t after,
        dead_all-le-holders i t.consumers,
      ) in
      let kept = v.kept (named i) in
      let held = v.held i in let fresh = v.fresh i in (omega arith, omega arith)
