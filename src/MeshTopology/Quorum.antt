-- ===== src/MeshTopology/Quorum.antt =====
-- Two healthy sets of backends, by `tree_healthy` of automation/mesh_topology.py.
use socio_workspace.Base.{
  ◌+◌, ◌<◌, ◌≡◌, ◌⊎◌, inl, inr, refl, ◌∙◌, Bool, true, ◌&&◌, ◌||◌, List, [], ◌∷◌, ◌++◌, String,
  arith, Bool-cases, any, leb→le,
}
use socio_workspace.MeshTopology.{
  Tree, leaf, node, Group, one, more, leaves, group_leaves, arity, quorum, tree_healthy, healthy,
}

abbrev pub both : (String → Bool) → (String → Bool) → String → Bool
both up up' b = up b && up' b

any-append : (p : String → Bool) (xs ys : List String) → any p (xs ++ ys) ≡ (any p xs || any p ys)
any-append p [] ys = refl
any-append p (x ∷ xs) ys = ground (arith, any-append p xs ys)

any-both :
    (p : String → Bool) (xs ys : List String)
    → (any p xs ≡ true) ⊎ (any p ys ≡ true)
    → any p (xs ++ ys) ≡ true
any-both p xs ys (inl h) = any-append p xs ys ∙ rw h refl
any-both p xs ys (inr h) = ground (arith, any-append p xs ys)

module _ (up up' : String → Bool) where
  mutual
    unfolding tree_healthy leaves arity quorum

    tree-both :
        (t : Tree)
        → tree_healthy t up ≡ true
        → tree_healthy t up' ≡ true
        → any (both up up') (leaves t) ≡ true
    tree-both (leaf b) h k = rw (h, k) refl
    tree-both (node ts) h k = group-both ts (
        omega (
          arith,
          leb→le (quorum (arity ts)) (healthy ts up) h,
          leb→le (quorum (arity ts)) (healthy ts up') k,
        ))

    group-both :
        (ts : Group)
        → arity ts < healthy ts up + healthy ts up'
        → any (both up up') (group_leaves ts) ≡ true
    group-both (one t) h = tree-both t (ground arith) (ground arith)
    group-both (more t ts) h = elim (Bool-cases (tree_healthy t up && tree_healthy t up')) [
      | inl all_up ↦
          any-both (both up up') (leaves t) (group_leaves ts)
            (inl (tree-both t (ground arith) (ground arith)))
      | inr not_both ↦
          any-both (both up up') (leaves t) (group_leaves ts) (inr (group-both ts (ground arith)))
    ]

  -- If one tree is healthy with two sets of backends, then some backend of it is in both sets. So
  -- two sides of a partition are never healthy at once.
  pub tree_healthy-both :
      (t : Tree)
      → tree_healthy t up ≡ true
      → tree_healthy t up' ≡ true
      → any (both up up') (leaves t) ≡ true
  tree_healthy-both t h k = tree-both t h k
