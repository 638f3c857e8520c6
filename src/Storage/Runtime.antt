-- ===== src/Storage/Runtime.antt =====
-- The placement that new writes use, by `load_runtime_placement` of automation/storage_placement.py.
use socio_workspace.Base.{
  ◌≤◌, ◌≡◌, ◌⊎◌, inl, inr, refl, ap, subst, true, Option, none, some, String, str_eq, arith,
  Bool-cases, Option-cases,
}
use socio_workspace.Base.Dict.{get}
use socio_workspace.Storage.{
  Placement, TierSpec, Registry, Load, loaded, bad_value, bad_key, is_valid, placement_of,
  validated, load_spec, tier_name, load_named, load_placement, overhead_reaches, raise_to,
  load_runtime_placement,
}

-- What `_validate` wants.
pub record IsSound (p : Placement) : Type 0 where
  pub shards : 1 ≤ p.rs_k
  pub copies : 1 ≤ p.replicas
  pub shard_copies : 1 ≤ p.shard_replicas
  pub encrypted : p.encrypted_at_rest ≡ true

loaded-inj : (p q : Placement) → loaded p ≡ loaded q → p ≡ q
loaded-inj p q h = ap (elim [ loaded x ↦ x | bad_value ↦ p | bad_key ↦ p ]) h

-- A load that succeeds gives a sound placement.
abbrev LoadsSound : Load → Type 0
LoadsSound l = (p : Placement) → l ≡ loaded p → IsSound p

bad_value-LoadsSound : LoadsSound bad_value
bad_value-LoadsSound p h = absurd (clash h)
  where
    clash : bad_value ≡ loaded p → ⊥
    clash h = cc

bad_key-LoadsSound : LoadsSound bad_key
bad_key-LoadsSound p h = absurd (clash h)
  where
    clash : bad_key ≡ loaded p → ⊥
    clash h = cc

validated-LoadsSound : (q : Placement) → LoadsSound (validated q)
unfolding validated is_valid
validated-LoadsSound q p h = elim (Bool-cases (is_valid q)) [
  | inl ok ↦ subst IsSound (loaded-inj q p (rw ok at h)) (record {
    shards = ground arith;
    copies = ground arith;
    shard_copies = ground arith;
    encrypted = ground arith;
  })
  | inr bad ↦ bad_value-LoadsSound p (rw bad at h)
]

load_spec-LoadsSound : (spec : TierSpec) → LoadsSound (load_spec spec)
unfolding load_spec placement_of
load_spec-LoadsSound spec = elim (Option-cases spec.rs_k) [
  | inl e ↦ rw e bad_key-LoadsSound
  | inr (k, e) ↦ elim (Option-cases spec.rs_m) [
    | inl e' ↦ rw (e, e') bad_key-LoadsSound
    | inr (m, e') ↦ rw (e, e') (validated-LoadsSound (placement_of spec k m))
  ]
]

load_named-LoadsSound :
    (registry : Registry) (name : Option String) → LoadsSound (load_named registry name)
unfolding load_named
load_named-LoadsSound registry none = bad_value-LoadsSound
load_named-LoadsSound registry (some t) = elim (Bool-cases (str_eq t "")) [
  | inl blank ↦ rw blank bad_value-LoadsSound
  | inr named ↦ elim (Option-cases (get registry.tiers t)) [
    | inl e ↦ rw (named, e) bad_value-LoadsSound
    | inr (spec, e) ↦ rw (named, e) (load_spec-LoadsSound spec)
  ]
]

overhead_reaches_refl : (p : Placement) → overhead_reaches p p ≡ true
unfolding overhead_reaches
overhead_reaches_refl p = ground arith

module _ (registry : Registry) (floor : Placement)
    (default : load_placement registry none ≡ loaded floor) where
  -- The result is a sound placement at or above the floor, or the tier of the posture has no rs_k
  -- or rs_m.
  abbrev pub AboveFloor : Option String → Load → Type 0
  AboveFloor posture l =
      ((p : Placement) × (l ≡ loaded p) × IsSound p × (overhead_reaches p floor ≡ true))
      ⊎ ((t : String) × (posture ≡ some t) × (load_placement registry (some t) ≡ bad_key))

  floor-AboveFloor : (posture : Option String) → AboveFloor posture (loaded floor)
  unfolding load_placement
  floor-AboveFloor posture = inl (
    floor,
    refl,
    load_named-LoadsSound registry (tier_name none registry.default_tier) floor default,
    overhead_reaches_refl floor,
  )

  raised-AboveFloor :
      (t : String) (l : Load)
      → load_placement registry (some t) ≡ l
      → AboveFloor (some t) (raise_to floor l)
  unfolding raise_to load_placement
  raised-AboveFloor t bad_value h = floor-AboveFloor (some t)
  raised-AboveFloor t bad_key h = inr (t, refl, h)
  raised-AboveFloor t (loaded chosen) h = elim (Bool-cases (overhead_reaches chosen floor)) [
    | inl enough ↦ rw enough (
        inl (
          chosen,
          refl,
          load_named-LoadsSound registry (tier_name (some t) registry.default_tier) chosen h,
          enough,
        ))
    | inr low ↦ rw low (floor-AboveFloor (some t))
  ]

  -- If the default tier loads, then whatever the state file names, the placement of new writes is
  -- sound (encrypted, with at least one shard and one copy) and its overhead is at least that of
  -- the default tier's; unless the named tier is declared without rs_k or rs_m, which raises.
  pub load_runtime_placement-AboveFloor :
      (posture : Option String) → AboveFloor posture (load_runtime_placement registry posture)
  unfolding load_runtime_placement
  load_runtime_placement-AboveFloor none =
      rw (default, load_runtime_placement) (floor-AboveFloor none)
  load_runtime_placement-AboveFloor (some t) = elim (Bool-cases (str_eq t "")) [
    | inl blank ↦ rw (default, load_runtime_placement, blank) (floor-AboveFloor (some t))
    | inr named ↦
        rw (default, load_runtime_placement, named)
          (raised-AboveFloor t (load_placement registry (some t)) refl)
  ]
