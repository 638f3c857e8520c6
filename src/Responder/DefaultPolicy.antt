-- ===== src/Responder/DefaultPolicy.antt =====
-- What automation/responder.py may fix by itself under the default policy.
use socio_workspace.Base.{
  ◌≤◌, ◌<◌, ◌≡◌, ◌⊎◌, inl, inr, refl, sym, ◌∙◌, ap, subst, true, false, Option, some, List, [], ◌∷◌,
  String, str_eq, eq_iff, arith, Bool-cases, All, leb, ◌==◌, some-inj, eq_refl,
}
use socio_workspace.Base.Dict.{get}
use socio_workspace.Propagation.{elem}
use socio_workspace.Policy.{
  law_for, action_for, validate_policy, default_policy, is_law, is_action, is_nil,
}
use socio_workspace.Responder.{
  Beacon, Receipt, kind_of, compute_iri, boundary_breaches, compose_evidence, total_weight,
  decide_composed,
}
use socio_workspace.Responder.Verdict.{
  rank, rank_in, IsMeet, IsReasoned, IsEscalated, Stops, decide_composed-Decides,
}

pub default_valid : validate_policy default_policy ≡ true
unfolding validate_policy is_law is_action elem is_nil
default_valid = refl

-- The classes that the default policy lets be fixed.
abbrev pub reversible : List String
reversible = "mirror_drift" ∷ "vendored_graph_drift" ∷ []

different : (a b : String) → str_eq a b ≡ false → a ≡ b → ⊥
different a b h e = true_ne_false (sym (ap (str_eq a) (sym e) ∙ eq_refl a) ∙ h)
  where
    true_ne_false : true ≡ false → ⊥
    true_ne_false x = cc

-- Every other kind has a law below `sealed`.
weaker-law :
    (kind : String)
    → str_eq "mirror_drift" kind ≡ false
    → str_eq "vendored_graph_drift" kind ≡ false
    → 4 ≤ rank (law_for default_policy kind)
    → ⊥
unfolding law_for get rank rank_in
weaker-law kind m0 m1 h = elim (Bool-cases (str_eq "build_failure" kind)) [
  | inl hit ↦ omega (arith, rw (m0, m1, hit) at h)
  | inr m2 ↦ elim (Bool-cases (str_eq "stale_vendor" kind)) [
    | inl hit ↦ omega (arith, rw (m0, m1, m2, hit) at h)
    | inr m3 ↦ elim (Bool-cases (str_eq "deploy_regression" kind)) [
      | inl hit ↦ omega (arith, rw (m0, m1, m2, m3, hit) at h)
      | inr m4 ↦ elim (Bool-cases (str_eq "workspace_lock_drift" kind)) [
        | inl hit ↦ omega (arith, rw (m0, m1, m2, m3, m4, hit) at h)
        | inr m5 ↦ elim (Bool-cases (str_eq "policy_violation" kind)) [
          | inl hit ↦ omega (arith, rw (m0, m1, m2, m3, m4, m5, hit) at h)
          | inr m6 ↦ elim (Bool-cases (str_eq "unknown" kind)) [
            | inl hit ↦ omega (arith, rw (m0, m1, m2, m3, m4, m5, m6, hit) at h)
            | inr m7 ↦ omega (arith, rw (m0, m1, m2, m3, m4, m5, m6, m7) at h)
          ]
        ]
      ]
    ]
  ]
]

sealed-reversible :
    (kind : String) → 4 ≤ rank (law_for default_policy kind) → elem kind reversible ≡ true
unfolding law_for get elem rank rank_in
sealed-reversible kind h = elim (Bool-cases (str_eq "mirror_drift" kind)) [
  | inl hit ↦ subst (λ k. elem k reversible ≡ true) ((eq_iff "mirror_drift" kind).0 hit) refl
  | inr m0 ↦ elim (Bool-cases (str_eq "vendored_graph_drift" kind)) [
    | inl hit ↦
        subst (λ k. elem k reversible ≡ true) ((eq_iff "vendored_graph_drift" kind).0 hit) refl
    | inr m1 ↦ absurd (weaker-law kind m0 m1 h)
  ]
]

auto_fix-sealed : (v : String) → action_for default_policy v ≡ "auto_fix" → rank v ≡ 4
unfolding action_for get rank rank_in
auto_fix-sealed v h = elim (Bool-cases (str_eq "sealed" v)) [
  | inl hit ↦ subst (λ x. rank x ≡ 4) ((eq_iff "sealed" v).0 hit) refl
  | inr m0 ↦ elim (Bool-cases (str_eq "probable" v)) [
    | inl hit ↦ absurd (different "canary_fix" "auto_fix" refl (rw (m0, hit) at h))
    | inr m1 ↦ elim (Bool-cases (str_eq "weak" v)) [
      | inl hit ↦ absurd (different "propose_pr" "auto_fix" refl (rw (m0, m1, hit) at h))
      | inr m2 ↦ elim (Bool-cases (str_eq "quarantine" v)) [
        | inl hit ↦ absurd (different "quarantine" "auto_fix" refl (rw (m0, m1, m2, hit) at h))
        | inr m3 ↦ elim (Bool-cases (str_eq "refuse" v)) [
          | inl hit ↦ absurd (different "block" "auto_fix" refl (rw (m0, m1, m2, m3, hit) at h))
          | inr m4 ↦
              absurd (different "escalate_human" "auto_fix" refl (rw (m0, m1, m2, m3, m4) at h))
        ]
      ]
    ]
  ]
]

strong_evidence :
    (beacons : List Beacon) (ev : String)
    → compose_evidence beacons ≡ some ev
    → 4 ≤ rank ev
    → 3 ≤ total_weight beacons
unfolding compose_evidence rank rank_in
strong_evidence beacons ev e h =
    let total = total_weight beacons in
    elim (Bool-cases (leb total 0)) [
      | inl nothing ↦ absurd (ground arith)
      | inr some_weight ↦ elim (Bool-cases (leb 3 total)) [
        | inl strong ↦ ground arith
        | inr below ↦ elim (Bool-cases (total == 2)) [
          | inl two ↦ absurd (too_weak "probable" (rw (some_weight, below, two) at e) (omega arith))
          | inr single ↦
              absurd (too_weak "weak" (rw (some_weight, below, single) at e) (omega arith))
        ]
      ]
    ]
  where
    too_weak : (v : String) → some v ≡ some ev → rank v < 4 → ⊥
    too_weak v same low = omega (arith, ap rank (some-inj v ev same), h)

-- What an automatic fix is allowed to rest on.
abbrev pub IsFixable : Beacon → Type 0
IsFixable b =
    (elem (kind_of b) reversible ≡ true)
    × (boundary_breaches b default_policy.boundary_axes ≡ [])
    × (compute_iri b < default_policy.iri_block)

All-IsFixable :
    (verdict : String) (beacons : List Beacon)
    → 4 ≤ rank verdict
    → All
        (λ b.
          (boundary_breaches b default_policy.boundary_axes ≡ [])
          × (compute_iri b < default_policy.iri_block)
          × (rank verdict ≤ rank (law_for default_policy (kind_of b))))
        beacons
    → All IsFixable beacons
All-IsFixable verdict [] h a = tt
All-IsFixable verdict (b ∷ beacons) h ((clear, low, lawful), a) = (
  (sealed-reversible (kind_of b) (omega (arith, h, lawful)), clear, low),
  All-IsFixable verdict beacons h a,
)

-- If `meet` is the least of its verdicts and the default policy decides on an automatic fix, then
-- every beacon of the subject is of one of the two reversible kinds, has no breach, and has an
-- identity risk below the block; and their evidence weighs at least three together.
pub auto_fix-IsFixable :
    (meet : List String → Option String) (b : Beacon) (rest : List Beacon) (r : Receipt)
    → IsMeet meet
    → decide_composed meet default_policy b rest ≡ some r
    → r.action ≡ "auto_fix"
    → All IsFixable (b ∷ rest) × (3 ≤ total_weight (b ∷ rest))
auto_fix-IsFixable meet b rest r is_meet d auto =
    let (r', d', why) = decide_composed-Decides meet is_meet default_policy default_valid b rest in
    let same : r' ≡ r = some-inj r' r (sym d' ∙ d) in fixable r' (ap action_of same ∙ auto) why
  where
    action_of : Receipt → String
    action_of x = x.action

    fixable :
        (r' : Receipt)
        → r'.action ≡ "auto_fix"
        → (Stops default_policy (b ∷ rest) × IsEscalated r')
          ⊎ IsReasoned default_policy (b ∷ rest) r'
        → All IsFixable (b ∷ rest) × (3 ≤ total_weight (b ∷ rest))
    fixable r' e (inl (why, (none_reached, human))) =
        absurd (different "escalate_human" "auto_fix" refl (sym human ∙ e))
    fixable r' e (inr v) =
        let top = auto_fix-sealed v.verdict (sym v.acts ∙ e) in
        (
          All-IsFixable v.verdict (b ∷ rest) (omega (arith, top)) v.each,
          strong_evidence (b ∷ rest) v.evidence v.composed (omega (arith, top, v.below_evidence)),
        )
