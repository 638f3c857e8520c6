-- ===== src/MeshTopology.antt =====
-- automation/mesh_topology.py: the tree of triads over the backends of a mesh, its rotating leader
-- and its quorum of quorums. A group is a list of at least one tree, as `build_tree` makes it. An
-- epoch is a natural number, and a set of backends is its test.
pub mod Build
pub mod Quorum
pub mod Sums
pub mod Leaders
use socio_workspace.Base.{
  ℕ, zero, suc, ◌+◌, ◌*◌, ◌/◌, ◌%◌, Bool, true, false, List, [], ◌∷◌, ◌++◌, String, ltb, leb, ◌==◌,
  if◌then◌else◌, length,
}

mutual
  pub data Tree : Type 0 where
    leaf : String → Tree
    node : Group → Tree

  pub data Group : Type 0 where
    one : Tree → Group
    more : Tree → Group → Group

abbrev pub take {ℓ} : {A : Type ℓ} → ℕ → List A → List A
take zero l = []
take (suc n) [] = []
take (suc n) (x ∷ l) = x ∷ take n l

abbrev pub drop {ℓ} : {A : Type ℓ} → ℕ → List A → List A
drop zero l = l
drop (suc n) [] = []
drop (suc n) (x ∷ l) = drop n l

-- The size of a part of `n` nodes.
unfoldable pub part_size : ℕ → ℕ → ℕ
part_size n i = n / 3 + (if ltb i (n % 3) then 1 else 0)

-- The loop of `_split3` over the sizes.
unfoldable pub parts : List ℕ → List String → List (List String)
parts [] nodes = []
parts (s ∷ sizes) nodes =
    let rest = parts sizes (drop s nodes) in if s == 0 then rest else take s nodes ∷ rest

unfoldable pub split3 : List String → List (List String)
split3 nodes =
    let n = length nodes in parts (part_size n 0 ∷ part_size n 1 ∷ part_size n 2 ∷ []) nodes

-- How a build, or what is built on it, ends; `value_error` is the exception for no backend.
pub data Built (A : Type 0) : Type 0 where
  built : A → Built A
  value_error : Built A
  zero_division : Built A
  out_of_fuel : Built A

infixl 5 ◌>>=◌
abbrev pub ◌>>=◌ : {A B : Type 0} → Built A → (A → Built B) → Built B
built a >>= f = f a
value_error >>= f = value_error
zero_division >>= f = zero_division
out_of_fuel >>= f = out_of_fuel

-- `[build_tree(p) for p in ps]`, for `build` as `build_tree`; the list `p ∷ ps` is not empty.
unfoldable pub build_group :
    (List String → Built Tree) → List String → List (List String) → Built Group
build_group build p [] = build p >>= λ t. built (one t)
build_group build p (q ∷ ps) = build p >>= λ t. build_group build q ps >>= λ ts. built (more t ts)

unfoldable pub node_of_parts : (List String → Built Tree) → List (List String) → Built Tree
node_of_parts build [] = value_error
node_of_parts build (p ∷ ps) = build_group build p ps >>= λ ts. built (node ts)

-- A group of leaves.
unfoldable pub leaf_group : String → List String → Group
leaf_group n [] = one (leaf n)
leaf_group n (m ∷ nodes) = more (leaf n) (leaf_group m nodes)

-- `fuel` bounds the depth of the recursion.
unfoldable pub build_tree : ℕ → List String → Built Tree
build_tree zero nodes = out_of_fuel
build_tree (suc fuel) [] = value_error
build_tree (suc fuel) (n ∷ nodes) =
    if leb (length (n ∷ nodes)) 3
    then built (node (leaf_group n nodes))
    else node_of_parts (build_tree fuel) (split3 (n ∷ nodes))

unfoldable mutual
  pub leaves : Tree → List String
  leaves (leaf b) = b ∷ []
  leaves (node ts) = group_leaves ts

  pub group_leaves : Group → List String
  group_leaves (one t) = leaves t
  group_leaves (more t ts) = leaves t ++ group_leaves ts

-- `len(tree)`
unfoldable pub arity : Group → ℕ
arity (one t) = 1
arity (more t ts) = suc (arity ts)

-- `max`
unfoldable pub max : ℕ → ℕ → ℕ
max m n = if leb m n then n else m

unfoldable mutual
  pub depth : Tree → ℕ
  depth (leaf b) = 0
  depth (node ts) = 1 + group_depth ts

  pub group_depth : Group → ℕ
  group_depth (one t) = depth t
  group_depth (more t ts) = max (depth t) (group_depth ts)

unfoldable mutual
  pub tree_leader : Tree → ℕ → String
  tree_leader (leaf b) epoch = b
  tree_leader (node ts) epoch = child_leader ts (epoch % arity ts) (epoch / arity ts)

  -- `tree_leader(tree[k], epoch)`, for `k` below the arity.
  pub child_leader : Group → ℕ → ℕ → String
  child_leader (one t) k epoch = tree_leader t epoch
  child_leader (more t ts) zero epoch = tree_leader t epoch
  child_leader (more t ts) (suc k) epoch = child_leader ts k epoch

-- `_quorum`
unfoldable pub quorum : ℕ → ℕ
quorum c = c / 2 + 1

unfoldable mutual
  pub tree_healthy : Tree → (String → Bool) → Bool
  tree_healthy (leaf b) up = up b
  tree_healthy (node ts) up = leb (quorum (arity ts)) (healthy ts up)

  -- The number of the healthy children.
  pub healthy : Group → (String → Bool) → ℕ
  healthy (one t) up = if tree_healthy t up then 1 else 0
  healthy (more t ts) up = (if tree_healthy t up then 1 else 0) + healthy ts up

unfoldable mutual
  pub turn_length : Tree → ℕ
  turn_length (leaf b) = 1
  turn_length (node ts) = arity ts * longest_turn ts

  pub longest_turn : Group → ℕ
  longest_turn (one t) = turn_length t
  longest_turn (more t ts) = max (turn_length t) (longest_turn ts)
