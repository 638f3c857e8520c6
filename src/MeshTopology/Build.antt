-- ===== src/MeshTopology/Build.antt =====
-- `build_tree` of automation/mesh_topology.py ends, and its tree has the backends it was given.
use socio_workspace.Base.{
  ℕ, zero, suc, ◌+◌, ◌≤◌, ◌<◌, ◌≡◌, inl, inr, refl, sym, ◌∙◌, ap, false, List, [], ◌∷◌, ◌++◌,
  String, arith, Bool-cases, All, leb, ◌==◌, length,
}
use mathlib.Core.List.{append-nil}
use socio_workspace.MeshTopology.{
  Tree, leaf, node, Group, one, more, leaves, group_leaves, take, drop, part_size, parts, split3,
  Built, built, build_group, node_of_parts, leaf_group, build_tree, arity,
}

abbrev concat : List (List String) → List String
concat [] = []
concat (p ∷ ps) = p ++ concat ps

sum : List ℕ → ℕ
sum [] = 0
sum (n ∷ ns) = n + sum ns

take-drop {ℓ} : {A : Type ℓ} (n : ℕ) (l : List A) → take n l ++ drop n l ≡ l
take-drop zero l = refl
take-drop (suc n) [] = refl
take-drop (suc n) (x ∷ l) = ap (λ r. x ∷ r) (take-drop n l)

length-take {ℓ} : {A : Type ℓ} (n : ℕ) (l : List A) → n ≤ length l → length (take n l) ≡ n
length-take zero l h = refl
length-take (suc n) [] h = absurd (omega arith)
length-take (suc n) (x ∷ l) h = omega (arith, length-take n l)

length-drop {ℓ} :
    {A : Type ℓ} (n : ℕ) (l : List A) → n ≤ length l → n + length (drop n l) ≡ length l
length-drop zero l h = omega arith
length-drop (suc n) [] h = absurd (omega arith)
length-drop (suc n) (x ∷ l) h = omega (arith, length-drop n l)

suc-eqb-zero : (s : ℕ) → (suc s == 0) ≡ false
suc-eqb-zero s = ground arith

-- The parts of sizes that add up to the length are the list cut in pieces.
concat-parts :
    (sizes : List ℕ) (nodes : List String)
    → sum sizes ≡ length nodes
    → concat (parts sizes nodes) ≡ nodes
unfolding sum parts
concat-parts [] [] h = refl
concat-parts [] (n ∷ nodes) h = absurd (omega arith)
concat-parts (zero ∷ sizes) nodes h = concat-parts sizes nodes (omega (arith, h))
concat-parts (suc s ∷ sizes) nodes h =
    let d = length-drop (suc s) nodes (omega arith) in
    rw (suc-eqb-zero s) (
      ap (λ r. take (suc s) nodes ++ r) (concat-parts sizes (drop (suc s) nodes) (omega (arith, d)))
      ∙ take-drop (suc s) nodes)

abbrev IsPart : ℕ → List String → Type 0
IsPart m p = (0 < length p) × (length p ≤ m)

All-parts :
    (m : ℕ) (sizes : List ℕ) (nodes : List String)
    → sum sizes ≡ length nodes
    → All (λ s. s ≤ m) sizes
    → All (IsPart m) (parts sizes nodes)
unfolding sum parts
All-parts m [] nodes h a = tt
All-parts m (zero ∷ sizes) nodes h a = All-parts m sizes nodes (omega (arith, h)) a.1
All-parts m (suc s ∷ sizes) nodes h a =
    let t = length-take (suc s) nodes (omega arith) in
    let d = length-drop (suc s) nodes (omega arith) in
    rw (suc-eqb-zero s) (
      (omega arith, omega (arith, a.0)),
      All-parts m sizes (drop (suc s) nodes) (omega (arith, d)) a.1,
    )

length-parts : (sizes : List ℕ) (nodes : List String) → length (parts sizes nodes) ≤ length sizes
unfolding parts
length-parts [] nodes = omega arith
length-parts (zero ∷ sizes) nodes = omega (arith, length-parts sizes nodes)
length-parts (suc s ∷ sizes) nodes = ground (arith, length-parts sizes (drop (suc s) nodes))

mutual
  -- No group has more than three children.
  pub IsTernary : Tree → Type 0
  IsTernary (leaf b) = Unit
  IsTernary (node ts) = (arity ts ≤ 3) × AllTernary ts

  pub AllTernary : Group → Type 0
  AllTernary (one t) = IsTernary t
  AllTernary (more t ts) = IsTernary t × AllTernary ts

-- A tree over the nodes, with the build that made it.
abbrev pub BuildsTree : Built Tree → List String → Type 0
BuildsTree b nodes = (t : Tree) × (b ≡ built t) × (leaves t ≡ nodes) × IsTernary t

group_of_leaves :
    (n : String) (nodes : List String)
    → (group_leaves (leaf_group n nodes) ≡ n ∷ nodes)
      × (arity (leaf_group n nodes) ≡ suc (length nodes))
      × AllTernary (leaf_group n nodes)
unfolding leaf_group leaves arity IsTernary
group_of_leaves n [] = (refl, refl, tt)
group_of_leaves n (m ∷ nodes) =
    let (a, b, c) = group_of_leaves m nodes in (ap (λ r. n ∷ r) a, ap suc b, (tt, c))

module _ (build : List String → Built Tree) (m : ℕ)
    (builds : (p : List String) → 0 < length p → length p ≤ m → BuildsTree (build p) p) where
  build_group-builds :
      (p : List String) (ps : List (List String))
      → All (IsPart m) (p ∷ ps)
      → (ts : Group) × (build_group build p ps ≡ built ts)
        × (group_leaves ts ≡ concat (p ∷ ps))
        × (arity ts ≡ length (p ∷ ps))
        × AllTernary ts
  unfolding build_group leaves arity IsTernary
  build_group-builds p [] ((pos, small), a) =
      let (t, e, l, k) = builds p pos small in (one t, rw e refl, l ∙ sym (append-nil p), refl, k)
  build_group-builds p (q ∷ ps) ((pos, small), a) =
      let (t, e, l, k) = builds p pos small in
      let (ts, e', l', n, k') = build_group-builds q ps a in
      (more t ts, rw (e, e') refl, rw (l, l') refl, ap suc n, (k, k'))

  node_of_parts-builds :
      (ps : List (List String)) (nodes : List String)
      → All (IsPart m) ps
      → length ps ≤ 3
      → concat ps ≡ nodes
      → 0 < length nodes
      → BuildsTree (node_of_parts build ps) nodes
  unfolding node_of_parts leaves IsTernary
  node_of_parts-builds [] nodes a n c pos = absurd (omega (arith, ap length c))
  node_of_parts-builds (p ∷ ps) nodes a n c pos =
      let (ts, e, l, k, all_small) = build_group-builds p ps a in
      (node ts, rw e refl, l ∙ c, (omega arith, all_small))

-- If the fuel is at least the number of the nodes, then `build_tree` returns a tree for every list
-- that is not empty: its leaves from left to right are the list, and no group has more than three
-- children.
pub build_tree-builds :
    (fuel : ℕ) (nodes : List String)
    → 0 < length nodes
    → length nodes ≤ fuel
    → BuildsTree (build_tree fuel nodes) nodes
unfolding build_tree leaves split3 part_size sum IsTernary
build_tree-builds zero nodes pos h = absurd (omega arith)
build_tree-builds (suc fuel) [] pos h = absurd (omega arith)
build_tree-builds (suc fuel) (n ∷ nodes) pos h =
    let all_nodes = n ∷ nodes in
    elim (Bool-cases (leb (length all_nodes) 3)) [
      | inl few ↦
          let (l, k, t) = group_of_leaves n nodes in
          rw few (node (leaf_group n nodes), refl, l, (ground arith, t))
      | inr many ↦
          let len = length all_nodes in
          let sizes = part_size len 0 ∷ part_size len 1 ∷ part_size len 2 ∷ [] in
          let add_up : sum sizes ≡ len = ground arith in
          rw many (
            node_of_parts-builds (build_tree fuel) fuel (build_tree-builds fuel)
              (parts sizes all_nodes) all_nodes
              (All-parts fuel sizes all_nodes add_up
                (ground arith, (ground arith, (ground arith, tt))))
              (length-parts sizes all_nodes) (concat-parts sizes all_nodes add_up) pos)
    ]
