-- ===== src/MeshTopology/Leaders.antt =====
-- How often each backend leads in one turn of `tree_leader` of automation/mesh_topology.py.
use socio_workspace.Base.{
  ℕ, ◌+◌, ◌*◌, ◌<◌, ◌/◌, ◌%◌, ◌≡◌, refl, sym, ◌∙◌, ap, Bool, List, [], ◌∷◌, ◌++◌, String, arith,
  if◌then◌else◌,
}
use native.Mathlib.Nat.{
  mul_comm, add_comm, mul-add-div_right, div-eq_of_lt, mod-eq_of_lt, add-mul-mod_self_right,
}
use socio_workspace.MeshTopology.Sums.{
  sum_below, sum_below-eq, sum_below-add, sum_below-suc, sum_below-rows,
}
use socio_workspace.MeshTopology.{
  Tree, leaf, node, Group, one, more, leaves, group_leaves, arity, max, tree_leader, child_leader,
  turn_length, longest_turn, build_tree, built, split3, parts, part_size, node_of_parts,
  build_group, leaf_group,
}

unfoldable mutual
  -- In every group, all children have the same turn.
  pub IsEven : Tree → Type 0
  IsEven (leaf b) = Unit
  IsEven (node ts) = AllTurn (longest_turn ts) ts

  pub AllTurn : ℕ → Group → Type 0
  AllTurn n (one t) = (turn_length t ≡ n) × IsEven t
  AllTurn n (more t ts) = (turn_length t ≡ n) × IsEven t × AllTurn n ts

module _ (p : String → Bool) where
  pub occurrences : List String → ℕ
  occurrences [] = 0
  occurrences (b ∷ bs) = (if p b then 1 else 0) + occurrences bs

  occurrences-append :
      (xs ys : List String) → occurrences (xs ++ ys) ≡ occurrences xs + occurrences ys
  unfolding occurrences
  occurrences-append [] ys = omega arith
  occurrences-append (x ∷ xs) ys = omega (arith, occurrences-append xs ys)

  abbrev one_if : String → ℕ
  one_if b = if p b then 1 else 0

  -- How many of the first `n` epochs have a leader that passes the test.
  pub led : Tree → ℕ → ℕ
  led t n = sum_below n (λ e. one_if (tree_leader t e))

  -- How many children of the group have a leader that passes.
  group_led : Group → ℕ → ℕ
  group_led (one t) e = one_if (tree_leader t e)
  group_led (more t ts) e = one_if (tree_leader t e) + group_led ts e

  sum_below-child_leader :
      (ts : Group) (e : ℕ)
      → sum_below (arity ts) (λ k. one_if (child_leader ts k e)) ≡ group_led ts e
  unfolding arity tree_leader group_led sum_below
  sum_below-child_leader (one t) e = omega arith
  sum_below-child_leader (more t ts) e =
      sum_below-suc (arity ts) (λ k. one_if (child_leader (more t ts) k e))
      ∙ omega (arith, sum_below-child_leader ts e)

  arity-pos : (ts : Group) → 0 < arity ts
  unfolding arity
  arity-pos (one t) = omega arith
  arity-pos (more t ts) = omega arith

  row_mod : (i c k : ℕ) → k < c → (i * c + k) % c ≡ k
  row_mod i c k h =
      ap (λ n. n % c) (add_comm (i * c) k) ∙ (add-mul-mod_self_right k i c ∙ mod-eq_of_lt h)

  row_div : (i c k : ℕ) → k < c → (i * c + k) / c ≡ i
  row_div i c k h =
      mul-add-div_right (omega arith) i k ∙ (ap (λ n. i + n) (div-eq_of_lt h) ∙ omega arith)

  node-row :
      (ts : Group) (i k : ℕ)
      → k < arity ts
      → tree_leader (node ts) (i * arity ts + k) ≡ child_leader ts k i
  unfolding tree_leader
  node-row ts i k h = rw (row_mod i (arity ts) k h, row_div i (arity ts) k h) refl

  led-node : (ts : Group) (n : ℕ) → led (node ts) (n * arity ts) ≡ sum_below n (group_led ts)
  unfolding led
  led-node ts n =
      sum_below-rows n (arity ts) (λ e. one_if (tree_leader (node ts) e))
      ∙ sum_below-eq n _ (group_led ts) (λ i _.
        sum_below-eq (arity ts) _ _ (λ k h. ap one_if (node-row ts i k h))
        ∙ sum_below-child_leader ts i)

  mutual
    unfolding IsEven leaves turn_length group_led occurrences led sum_below tree_leader

    led-tree : (t : Tree) → IsEven t → led t (turn_length t) ≡ occurrences (leaves t)
    led-tree (leaf b) h = ground arith
    led-tree (node ts) h =
        ap (led (node ts)) (mul_comm (arity ts) (longest_turn ts))
        ∙ (led-node ts (longest_turn ts) ∙ led-group (longest_turn ts) ts h)

    led-group :
        (n : ℕ) (ts : Group)
        → AllTurn n ts
        → sum_below n (group_led ts) ≡ occurrences (group_leaves ts)
    led-group n (one t) h = ap (led t) (sym (h.0)) ∙ led-tree t h.1
    led-group n (more t ts) h =
        sum_below-add n (λ e. one_if (tree_leader t e)) (group_led ts)
        ∙ omega (
          arith,
          ap (led t) (h.0),
          led-tree t h.1,
          led-group n ts h.2,
          occurrences-append (leaves t) (group_leaves ts),
        )

  -- If in every group of a tree all children have turns of one length, then over one turn of the
  -- tree the backends that pass a test lead as many epochs as they have leaves: each leaf leads
  -- once.
  pub led-turn_length : (t : Tree) → IsEven t → led t (turn_length t) ≡ occurrences (leaves t)
  led-turn_length t h = led-tree t h

  -- In a mesh of four backends, one turn is six epochs: the first two lead in one epoch each, and
  -- the other two in two epochs each.
  pub led-build_tree_four :
      (a b c d : String)
      → (t : Tree) × (build_tree 2 (a ∷ b ∷ c ∷ d ∷ []) ≡ built t)
        × (turn_length t ≡ 6)
        × (led t (turn_length t) ≡ one_if a + (one_if b + (2 * one_if c + 2 * one_if d)))
  unfolding build_tree split3 parts part_size node_of_parts build_group leaf_group turn_length
      tree_leader led sum_below arity max
  led-build_tree_four a b c d = (
    node (
        more (node (more (leaf a) (one (leaf b))))
          (more (node (one (leaf c))) (one (node (one (leaf d)))))),
    refl,
    refl,
    omega arith,
  )
