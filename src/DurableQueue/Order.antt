-- ===== src/DurableQueue/Order.antt =====
-- The order of the pending files of automation/durable_queue.py, and what removing one does to it.
use socio_workspace.Base.{
  ◌≡◌, inl, inr, refl, sym, ◌∙◌, ap, subst, true, false, List, [], ◌∷◌, arith, Bool-cases, All,
  if◌then◌else◌,
}
use socio_workspace.DurableQueue.{
  ItemId, File, before, same, insert_path, sort_paths, names, unlink,
}

pub before-same : (a b : ItemId) → before a b ≡ true → same a b ≡ false
unfolding before same
before-same a b h = ground arith

pub same-before : (a b : ItemId) → same a b ≡ true → before a b ≡ false
unfolding before same
same-before a b h = ground arith

pub same_comm : (a b : ItemId) → same a b ≡ same b a
unfolding same
same_comm a b = ground arith

pub same_refl : (a : ItemId) → same a a ≡ true
unfolding same
same_refl a = ground arith

pub before_asymm : (a b : ItemId) → before a b ≡ true → before b a ≡ false
unfolding before
before_asymm a b h = ground arith

pub before_trans : (a b c : ItemId) → before a b ≡ true → before b c ≡ true → before a c ≡ true
unfolding before
before_trans a b c h k = ground arith

not-before_trans : (a b c : ItemId) → before b a ≡ false → before c b ≡ false → before c a ≡ false
unfolding before
not-before_trans a b c h k = ground arith

-- The transports of a name along `same`.
before-left_of_same : (a b c : ItemId) → same a b ≡ true → before a c ≡ before b c
unfolding before same
before-left_of_same a b c h = ground arith

pub same-left_of_same : (a b c : ItemId) → same a b ≡ true → same a c ≡ same b c
unfolding same
same-left_of_same a b c h = ground arith

-- No name is before an earlier one.
abbrev pub IsSorted : List ItemId → Type 0
IsSorted [] = Unit
IsSorted (i ∷ ids) = All (λ j. before j i ≡ false) ids × IsSorted ids

All-insert_path {ℓ} :
    (P : ItemId → Type ℓ) (i : ItemId) (ids : List ItemId)
    → P i
    → All P ids
    → All P (insert_path i ids)
unfolding insert_path
All-insert_path P i [] p h = (p, tt)
All-insert_path P i (j ∷ ids) p h = elim (Bool-cases (before j i)) [
  | inl first ↦ rw first (h.0, All-insert_path P i ids p h.1)
  | inr later ↦ rw later (p, h)
]

All-not-before_trans :
    (a b : ItemId) (ids : List ItemId)
    → before b a ≡ false
    → All (λ j. before j b ≡ false) ids
    → All (λ j. before j a ≡ false) ids
All-not-before_trans a b [] h k = tt
All-not-before_trans a b (c ∷ ids) h k =
    (not-before_trans a b c h k.0, All-not-before_trans a b ids h k.1)

IsSorted-insert_path :
    (i : ItemId) (ids : List ItemId) → IsSorted ids → IsSorted (insert_path i ids)
unfolding insert_path
IsSorted-insert_path i [] h = (tt, tt)
IsSorted-insert_path i (j ∷ ids) h = elim (Bool-cases (before j i)) [
  | inl first ↦ rw first (
    All-insert_path (λ k. before k j ≡ false) i ids (before_asymm j i first) h.0,
    IsSorted-insert_path i ids h.1,
  )
  | inr later ↦ rw later ((later, All-not-before_trans i j ids later h.0), h)
]

pub IsSorted-sort_paths : (ids : List ItemId) → IsSorted (sort_paths ids)
unfolding sort_paths
IsSorted-sort_paths [] = tt
IsSorted-sort_paths (i ∷ ids) = IsSorted-insert_path i (sort_paths ids) (IsSorted-sort_paths ids)

All-of-insert_path {ℓ} :
    (P : ItemId → Type ℓ) (i : ItemId) (ids : List ItemId)
    → All P (insert_path i ids)
    → P i × All P ids
unfolding insert_path
All-of-insert_path P i [] h = h
All-of-insert_path P i (j ∷ ids) h = elim (Bool-cases (before j i)) [
  | inl first ↦
      let (p, all) : All P (j ∷ insert_path i ids) = rw first at h in
      let (q, rest) = All-of-insert_path P i ids all in (q, (p, rest))
  | inr later ↦ rw later at h
]

All-of-sort_paths {ℓ} :
    (P : ItemId → Type ℓ) (ids : List ItemId) → All P (sort_paths ids) → All P ids
unfolding sort_paths
All-of-sort_paths P [] h = tt
All-of-sort_paths P (i ∷ ids) h =
    let (p, rest) = All-of-insert_path P i (sort_paths ids) h in (p, All-of-sort_paths P ids rest)

-- No name of the list is before the name.
abbrev pub IsLeast : ItemId → List ItemId → Type 0
IsLeast i ids = All (λ j. before j i ≡ false) ids

pub sort_paths-IsLeast :
    (i : ItemId) (ids rest : List ItemId) → sort_paths ids ≡ i ∷ rest → IsLeast i ids
sort_paths-IsLeast i ids rest e =
    let (least, _) = subst IsSorted e (IsSorted-sort_paths ids) in
    All-of-sort_paths (λ j. before j i ≡ false) ids
      (subst (λ l. IsLeast i l) (sym e) (same-before i i (same_refl i), least))

-- The first file of the name goes.
unfoldable pub drop_path : ItemId → List ItemId → List ItemId
drop_path i [] = []
drop_path i (j ∷ ids) = if same j i then ids else j ∷ drop_path i ids

drop_path-insert_path_self :
    (i j : ItemId) (ids : List ItemId) → same j i ≡ true → drop_path i (insert_path j ids) ≡ ids
unfolding drop_path insert_path
drop_path-insert_path_self i j [] h = rw h refl
drop_path-insert_path_self i j (k ∷ ids) h = elim (Bool-cases (before k j)) [
  | inl first ↦
      let other : same k i ≡ false = same-left_of_same' k j i h ∙ before-same k j first in
      rw first (rw other (ap (λ r. k ∷ r) (drop_path-insert_path_self i j ids h)))
  | inr later ↦ rw later (rw h refl)
]
  where
    same-left_of_same' : (k j i : ItemId) → same j i ≡ true → same k i ≡ same k j
    same-left_of_same' k j i h = same_comm k i ∙ (sym (same-left_of_same j i k h) ∙ same_comm j k)

insert_path_first :
    (i : ItemId) (ids : List ItemId)
    → All (λ j. before j i ≡ false) ids
    → insert_path i ids ≡ i ∷ ids
unfolding insert_path
insert_path_first i [] h = refl
insert_path_first i (j ∷ ids) h = rw (h.0) refl

drop_path-insert_path :
    (i j : ItemId) (ids : List ItemId)
    → same j i ≡ false
    → IsSorted ids
    → drop_path i (insert_path j ids) ≡ insert_path j (drop_path i ids)
unfolding drop_path insert_path
drop_path-insert_path i j [] h s = rw h refl
drop_path-insert_path i j (k ∷ ids) h s = elim (Bool-cases (before k j)) [
  | inl first ↦ elim (Bool-cases (same k i)) [
    | inl hit ↦ rw (first, hit) refl
    | inr miss ↦ rw (first, miss, first) (ap (λ r. k ∷ r) (drop_path-insert_path i j ids h s.1))
  ]
  | inr later ↦ elim (Bool-cases (same k i)) [
    | inl hit ↦
        rw (later, h, hit) (sym (insert_path_first j ids (All-not-before_trans j k ids later s.0)))
    | inr miss ↦ rw (later, h, miss, later) refl
  ]
]

-- Removing a file removes its name from the sorted names.
pub sort_paths-unlink :
    (i : ItemId) (files : List File)
    → sort_paths (names (unlink i files)) ≡ drop_path i (sort_paths (names files))
unfolding sort_paths unlink drop_path
sort_paths-unlink i [] = refl
sort_paths-unlink i ((j, text) ∷ files) = elim (Bool-cases (same j i)) [
  | inl hit ↦ rw hit (sym (drop_path-insert_path_self i j (sort_paths (names files)) hit))
  | inr miss ↦ rw miss (
      ap (insert_path j) (sort_paths-unlink i files)
      ∙ sym (
          drop_path-insert_path i j (sort_paths (names files)) miss
            (IsSorted-sort_paths (names files))))
]
