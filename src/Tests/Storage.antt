-- ===== src/Tests/Storage.antt =====
-- Runs of automation/storage_placement.py and automation/storage_resilience.py.
use socio_workspace.Base.{
  ℕ, ◌≡◌, refl, Bool, true, none, some, List, [], ◌∷◌, String, arith, length, str_eq,
}
use socio_workspace.Base.Dict.{Dict, get, put, IsUnique}
use socio_workspace.Propagation.{elem}
use socio_workspace.MeshTopology.{
  built, build_tree, split3, parts, part_size, node_of_parts, build_group, leaf_group, leaves, max,
}
use socio_workspace.Storage.{
  Placement, TierSpec, Registry, loaded, load_placement, load_named, load_spec, tier_name,
  validated, is_valid, placement_of, load_runtime_placement, rs_n, disperse_shards, place_shards,
  assign, node_at, durable,
}
use socio_workspace.Storage.Runtime.{AboveFloor, load_runtime_placement-AboveFloor}
use socio_workspace.Storage.Dispersed.{
  shards_on, shards_off, disperse_shards-IsUnique, disperse_shards-durable,
}

abbrev base : TierSpec
base = record {
  replicas = none;
  rs_k = some 6;
  rs_m = some 3;
  encrypted_at_rest = none;
  shard_replicas = none;
}

abbrev registry : Registry
registry = record {
  tiers = ("base", base) ∷ ("siege", record base { shard_replicas = some 2 }) ∷ [];
  default_tier = some "base";
}

abbrev floor : Placement
floor = record { replicas = 3; rs_k = 6; rs_m = 3; encrypted_at_rest = true; shard_replicas = 1 }

floor_loads : load_placement registry none ≡ loaded floor
unfolding load_placement load_named load_spec tier_name validated is_valid placement_of get
floor_loads = refl

load_runtime_placement-AboveFloor_example :
    AboveFloor registry floor floor_loads
      (some "siege")
      (load_runtime_placement registry (some "siege"))
load_runtime_placement-AboveFloor_example =
    load_runtime_placement-AboveFloor registry floor floor_loads (some "siege")

abbrev nodes : List String
nodes = "a" ∷ "b" ∷ "c" ∷ "d" ∷ "e" ∷ []

abbrev small : Placement
small = record floor { rs_k = 1; rs_m = 1 }

disperse_shards-IsUnique_example :
    (d : Dict ℕ) × (disperse_shards 5 nodes small ≡ built d) × IsUnique d × (length d ≡ 2)
unfolding rs_n elem
disperse_shards-IsUnique_example =
    disperse_shards-IsUnique 5 nodes small (omega arith) (refl, (refl, (refl, (refl, (refl, tt)))))
      (omega arith) (omega arith)

abbrev is_c : String → Bool
is_c node = str_eq node "c"

disperse_shards-durable_example : durable (shards_off is_c (("a", 0) ∷ ("c", 1) ∷ [])) small ≡ true
unfolding rs_n elem disperse_shards place_shards build_tree split3 parts part_size node_of_parts
    build_group leaf_group leaves assign node_at max put shards_on
disperse_shards-durable_example =
    disperse_shards-durable 5 nodes small (("a", 0) ∷ ("c", 1) ∷ []) is_c (omega arith)
      (refl, (refl, (refl, (refl, (refl, tt))))) (omega arith) (omega arith) refl (omega arith)
