-- ===== src/DurableQueue/Consumers/Once.antt =====
-- What holds in every state that the processes of automation/durable_queue.py reach.
use socio_workspace.Base.{
  ℕ, zero, suc, ◌+◌, ◌≤◌, ◌≡◌, inl, inr, refl, ◌∙◌, ap, Bool, Option, some, List, [], ◌∷◌, ◌++◌,
  String, arith, Bool-cases,
}
use socio_workspace.DurableQueue.{ItemId, File, same, read_text}
use socio_workspace.DurableQueue.Order.{same_refl}
use socio_workspace.DurableQueue.Consumers.{
  Consumer, holding, crashed, advance, count, named, System, Step, write, move, crash, Steps, done,
  then_step, idle_all, start,
}
use socio_workspace.DurableQueue.Consumers.Conserved.{
  total, claims, hand, in_hand, in_hand-append, holds, holders, holders-append, total-advance,
  claims-advance, same-eq, read_text-count,
}

-- Every file that was put is in one place, no id was used twice, and the claims are held.
pub record IsFair (s : System) : Type 0 where
  pub kept : (p : File → Bool) → total p s.shared + in_hand p s.consumers ≡ count p s.written
  pub held :
      (i : ItemId)
      → count (named i) s.shared.directory.claimed + in_hand (named i) s.consumers
        ≡ holders i s.consumers
  pub fresh : (i : ItemId) → count (named i) s.written ≤ 1

in_hand-idle_all : (p : File → Bool) (n : ℕ) → in_hand p (idle_all n) ≡ 0
unfolding in_hand hand idle_all
in_hand-idle_all p zero = refl
in_hand-idle_all p (suc n) = omega (arith, in_hand-idle_all p n)

holders-idle_all : (i : ItemId) (n : ℕ) → holders i (idle_all n) ≡ 0
unfolding holders holds claims hand idle_all
holders-idle_all i zero = refl
holders-idle_all i (suc n) = omega (arith, holders-idle_all i n)

pub start-IsFair : (n : ℕ) → IsFair (start n)
unfolding total count
start-IsFair n = record {
  kept = λ p. omega (arith, in_hand-idle_all p n);
  held = λ i. omega (arith, in_hand-idle_all (named i) n, holders-idle_all i n);
  fresh = λ i. omega arith;
}

in_hand-le-holders : (i : ItemId) (cs : List Consumer) → in_hand (named i) cs ≤ holders i cs
unfolding in_hand holders holds
in_hand-le-holders i [] = omega arith
in_hand-le-holders i (c ∷ cs) = omega (arith, in_hand-le-holders i cs)

count-fresh :
    (i j : ItemId) (text : String) (files : List File)
    → count (named j) files ≡ 0
    → count (named i) files ≤ 1
    → count (named i) ((j, text) ∷ files) ≤ 1
unfolding count
count-fresh i j text files h k = elim (Bool-cases (same j i)) [
  | inl hit ↦ ground (arith, same-eq j i hit)
  | inr miss ↦ ground arith
]

module _ {V : Type 0} (loads : String → Option V) where
  Step-IsFair : (s t : System) → Step loads s t → IsFair s → IsFair t
  Step-IsFair s _ (write i text new) v = record {
    kept = λ p. unfold total count in ground (arith, v.kept p);
    held = v.held;
    fresh = λ j. count-fresh j i text s.written new (v.fresh j);
  }
  Step-IsFair s _ (move xs c ys e) v = record {
    kept = λ p.
        let c' = (advance loads c s.shared).0 in
        omega (
          arith,
          v.kept p,
          ap (in_hand p) e,
          in_hand-append p xs c ys,
          in_hand-append p xs c' ys,
          total-advance loads p c s.shared,
        );
    held = λ i.
        let old = ap (holders i) e ∙ holders-append i xs c ys in
        let hands = ap (in_hand (named i)) e ∙ in_hand-append (named i) xs c ys in
        let c' = (advance loads c s.shared).0 in
        unfold holds in
        omega (
          arith,
          old,
          hands,
          v.held i,
          holders-append i xs c' ys,
          in_hand-append (named i) xs c' ys,
          claims-advance loads i c s.shared (
              omega
                (arith, old, hands, v.held i, in_hand-le-holders i xs, in_hand-le-holders i ys)),
        );
    fresh = v.fresh;
  }
  Step-IsFair s _ (crash xs c ys e) v = record {
    kept = λ p.
        let old = ap (in_hand p) e ∙ in_hand-append p xs c ys in
        unfold hand in omega (arith, v.kept p, old, in_hand-append p xs (crashed c) ys);
    held = λ i.
        let old = ap (holders i) e ∙ holders-append i xs c ys in
        let hands = ap (in_hand (named i)) e ∙ in_hand-append (named i) xs c ys in
        unfold holds claims hand in
        omega (
          arith,
          old,
          hands,
          v.held i,
          holders-append i xs (crashed c) ys,
          in_hand-append (named i) xs (crashed c) ys,
        );
    fresh = v.fresh;
  }

  pub Steps-IsFair : (s t : System) → Steps loads s t → IsFair s → IsFair t
  Steps-IsFair s _ done v = v
  Steps-IsFair s t (then_step {t = u} steps step) v =
      Step-IsFair u t step (Steps-IsFair s u steps v)

  -- In every state that is reached from the empty directory with processes outside any call, by
  -- any order of puts of new ids, of steps of processes and of crashes: for every test, the files
  -- that pass it are as many in what was put as pending, claimed, read and unlinked by a process,
  -- alive or dead, that has not returned, returned, and unparsable together.
  pub conserved :
      (n : ℕ) (s : System) (p : File → Bool)
      → Steps loads (start n) s
      → count p s.written
        ≡ count p s.shared.directory.pending
          + (count p s.shared.directory.claimed
              + (in_hand p s.consumers + (count p s.shared.returned + count p s.shared.lost)))
  unfolding total
  conserved n s p steps =
      let v = Steps-IsFair (start n) s steps (start-IsFair n) in omega (arith, v.kept p)

  -- In every such state the entry of an id was returned at most once; it is held by at most one
  -- process, and by none after it was returned.
  pub returned_once :
      (n : ℕ) (s : System) (i : ItemId)
      → Steps loads (start n) s
      → count (named i) s.shared.returned + holders i s.consumers ≤ 1
  unfolding total
  returned_once n s i steps =
      let v = Steps-IsFair (start n) s steps (start-IsFair n) in
      omega (arith, v.kept (named i), v.held i, v.fresh i)

  -- In every such state a process that has claimed a file finds it.
  pub holding-read_text :
      (n : ℕ) (s : System) (i : ItemId) (xs ys : List Consumer)
      → Steps loads (start n) s
      → s.consumers ≡ xs ++ (holding i ∷ ys)
      → (text : String) × (read_text i s.shared.directory.claimed ≡ some text)
  unfolding holds claims hand
  holding-read_text n s i xs ys steps e =
      let v = Steps-IsFair (start n) s steps (start-IsFair n) in
      let one : holds i (holding i) ≡ 1 = rw (same_refl i) refl in
      read_text-count i s.shared.directory.claimed (
        omega (
          arith,
          one,
          v.held i,
          ap (holders i) e,
          holders-append i xs (holding i) ys,
          ap (in_hand (named i)) e,
          in_hand-append (named i) xs (holding i) ys,
          in_hand-le-holders i xs,
          in_hand-le-holders i ys,
        ))
