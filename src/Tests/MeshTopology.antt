-- ===== src/Tests/MeshTopology.antt =====
-- Runs of automation/mesh_topology.py on meshes of three and four backends.
use socio_workspace.Base.{◌≡◌, refl, Bool, true, not, List, [], ◌∷◌, String, str_eq, arith, any}
use socio_workspace.MeshTopology.{
  Tree, leaf, node, one, more, build_tree, leaves, tree_healthy, arity, quorum, turn_length, max,
}
use socio_workspace.MeshTopology.Build.{BuildsTree, build_tree-builds}
use socio_workspace.MeshTopology.Quorum.{both, tree_healthy-both}
use socio_workspace.MeshTopology.Leaders.{IsEven, led, occurrences, led-turn_length}

abbrev four : List String
four = "a" ∷ "b" ∷ "c" ∷ "d" ∷ []

build_tree-builds_example : BuildsTree (build_tree 4 four) four
build_tree-builds_example = build_tree-builds 4 four (omega arith) (omega arith)

abbrev triad : Tree
triad = node (more (leaf "a") (more (leaf "b") (one (leaf "c"))))

abbrev but_a : String → Bool
but_a b = not (str_eq b "a")

abbrev but_c : String → Bool
but_c b = not (str_eq b "c")

tree_healthy-both_example : any (both but_a but_c) (leaves triad) ≡ true
unfolding tree_healthy arity quorum
tree_healthy-both_example = tree_healthy-both but_a but_c triad refl refl

-- Three triads.
abbrev nine : Tree
nine = node (more triad (more triad (one triad)))

triad-IsEven : IsEven triad
unfolding IsEven turn_length arity max
triad-IsEven = (refl, tt, (refl, tt, (refl, tt)))

led-turn_length_example : led but_a nine (turn_length nine) ≡ occurrences but_a (leaves nine)
unfolding IsEven turn_length arity max
led-turn_length_example =
    led-turn_length but_a nine (refl, triad-IsEven, (refl, triad-IsEven, (refl, triad-IsEven)))
