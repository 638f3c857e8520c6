-- ===== src/Storage.antt =====
-- automation/storage_resilience.py and automation/storage_placement.py: how a leaf is laid down on the
-- mesh. The counts of a placement are natural numbers; the code rejects a negative rs_m. A tier of
-- the registry is a record of its optional fields, after the YAML parser.
pub mod Runtime
pub mod Dispersed
use socio_workspace.Base.{
  ℕ, zero, suc, ◌+◌, ◌*◌, ◌/◌, ◌%◌, Bool, true, false, not, ◌&&◌, Option, none, some, List, [], ◌∷◌,
  String, str_eq, leb, ltb, ◌==◌, if◌then◌else◌, length, get_elem?,
}
use socio_workspace.Base.Dict.{Dict, get, put}
use socio_workspace.Policy.{or_else}
use socio_workspace.MeshTopology.{
  Built, built, value_error, zero_division, out_of_fuel, ◌>>=◌, build_tree, leaves, max,
}

pub record Placement : Type 0 where
  pub replicas : ℕ
  pub rs_k : ℕ
  pub rs_m : ℕ
  pub encrypted_at_rest : Bool
  pub shard_replicas : ℕ

unfoldable pub rs_n : Placement → ℕ
rs_n p = p.rs_k + p.rs_m

-- Whether n·R/k of the first is at least that of the second, as fractions of positive k.
unfoldable pub overhead_reaches : Placement → Placement → Bool
unfolding rs_n
overhead_reaches p q =
    leb ((rs_n q * q.shard_replicas) * p.rs_k) ((rs_n p * p.shard_replicas) * q.rs_k)

pub record TierSpec : Type 0 where
  pub replicas : Option ℕ
  pub rs_k : Option ℕ
  pub rs_m : Option ℕ
  pub encrypted_at_rest : Option Bool
  pub shard_replicas : Option ℕ

pub record Registry : Type 0 where
  pub tiers : Dict TierSpec
  pub default_tier : Option String

-- How a load ends: with a placement, a `ValueError` or a `KeyError`.
pub data Load : Type 0 where
  loaded : Placement → Load
  bad_value : Load
  bad_key : Load

unfoldable pub is_valid : Placement → Bool
is_valid p = leb 1 p.rs_k && (leb 1 p.replicas && (leb 1 p.shard_replicas && p.encrypted_at_rest))

unfoldable pub placement_of : TierSpec → ℕ → ℕ → Placement
placement_of spec k m = record {
  replicas = or_else 3 spec.replicas;
  rs_k = k;
  rs_m = m;
  encrypted_at_rest = or_else true spec.encrypted_at_rest;
  shard_replicas = or_else 1 spec.shard_replicas;
}

-- `_validate`
unfoldable pub validated : Placement → Load
validated p = if is_valid p then loaded p else bad_value

-- `_tier_to_placement`, with the validation after it.
unfoldable pub load_spec : TierSpec → Load
load_spec spec = elim spec.rs_k [
  | none ↦ bad_key
  | some k ↦ elim spec.rs_m [ none ↦ bad_key | some m ↦ validated (placement_of spec k m) ]
]

-- The requested tier, else the default one, if it is not the empty text.
unfoldable pub tier_name : Option String → Option String → Option String
tier_name (some t) default = if str_eq t "" then default else some t
tier_name none default = default

unfoldable pub load_named : Registry → Option String → Load
load_named registry none = bad_value
load_named registry (some t) =
    if str_eq t ""
    then bad_value
    else elim (get registry.tiers t) [ none ↦ bad_value | some spec ↦ load_spec spec ]

unfoldable pub load_placement : Registry → Option String → Load
load_placement registry requested = load_named registry (tier_name requested registry.default_tier)

-- The placement of the posture, under the floor.
unfoldable pub raise_to : Placement → Load → Load
raise_to floor (loaded chosen) =
    if overhead_reaches chosen floor then loaded chosen else loaded floor
raise_to floor bad_value = loaded floor
raise_to floor bad_key = bad_key

-- `posture` is the tier in the state file: `none` where the file or the tier is not there or is no
-- text.
unfoldable pub load_runtime_placement : Registry → Option String → Load
load_runtime_placement registry posture = elim (load_placement registry none) [
  | bad_value ↦ bad_value
  | bad_key ↦ bad_key
  | loaded floor ↦ elim posture [
    | none ↦ loaded floor
    | some t ↦
        if str_eq t "" then loaded floor else raise_to floor (load_placement registry (some t))
  ]
]

-- The node for a slot.
unfoldable pub node_at : List String → ℕ → Option String
node_at ordered slot = get_elem? ordered (slot % length ordered)

-- The dict comprehension, from shard `i` on, with `left` shards to go.
unfoldable pub assign : List String → ℕ → ℕ → ℕ → Dict ℕ → Dict ℕ
assign ordered stride i zero d = d
assign ordered stride i (suc left) d =
    assign ordered stride (suc i) left
      (elim (node_at ordered (i * stride)) [ none ↦ d | some node ↦ put d node i ])

unfoldable pub place_shards : Placement → List String → Built (Dict ℕ)
place_shards p ordered =
    if ltb (length ordered) (rs_n p)
    then value_error
    else if rs_n p == 0
    then zero_division
    else built (assign ordered (max 1 (length ordered / rs_n p)) 0 (rs_n p) [])

-- `disperse_shards`, with the fuel of `build_tree`. A shard is its number.
unfoldable pub disperse_shards : ℕ → List String → Placement → Built (Dict ℕ)
disperse_shards fuel nodes p = build_tree fuel nodes >>= λ t. place_shards p (leaves t)

unfoldable pub durable : ℕ → Placement → Bool
durable surviving p = leb p.rs_k surviving
