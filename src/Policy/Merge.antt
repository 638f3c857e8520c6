-- ===== src/Policy/Merge.antt =====
-- What a merged policy of automation/policy.py gives.
use socio_workspace.Base.{
  ◌≡◌, inl, inr, refl, ◌∙◌, ap, subst, Bool, true, false, Option, none, some, [], ◌∷◌, String,
  arith, Bool-cases, Option-cases, all, str_eq, eq_iff, some-inj,
}
use socio_workspace.Base.Dict.{Dict, get, put, get-put, has, IsUnique, get-absent}
use socio_workspace.Propagation.{elem}
use socio_workspace.Policy.{
  verdicts, actions, ResponsePolicy, or_else, law_for, action_for, default_policy, is_law,
  is_action, validate_policy, Mapping, update, merged, policy_from_mapping,
}

get-all :
    (test : String × String → Bool) (d : Dict String) (k v : String)
    → all test d ≡ true
    → get d k ≡ some v
    → (j : String) × (test (j, v) ≡ true)
unfolding get
get-all test [] k v a h = absurd (ground arith)
get-all test ((j, w) ∷ d) k v a h = elim (Bool-cases (str_eq j k)) [
  | inl hit ↦ (j, ground arith)
  | inr miss ↦ get-all test d k v (ground arith) (ground arith)
]

-- A policy that passes validation gives every kind a law that is a verdict, and every verdict an
-- action that is known.
pub validate_policy-known :
    (p : ResponsePolicy)
    → validate_policy p ≡ true
    → ((kind : String) → elem (law_for p kind) verdicts ≡ true)
      × ((verdict : String) → elem (action_for p verdict) actions ≡ true)
unfolding validate_policy law_for action_for is_law is_action
validate_policy-known p h = (law, action)
  where
    law : (kind : String) → elem (law_for p kind) verdicts ≡ true
    law kind = elim (Option-cases (get p.law_by_kind kind)) [
      | inl e ↦ rw e (ground arith)
      | inr (v, e) ↦ let (j, t) = get-all is_law p.law_by_kind kind v (ground arith) e in rw e t
    ]

    action : (verdict : String) → elem (action_for p verdict) actions ≡ true
    action verdict = elim (Option-cases (get p.verdict_action verdict)) [
      | inl e ↦ rw e (unfold elem in refl)
      | inr (v, e) ↦
          let (j, t) = get-all is_action p.verdict_action verdict v (ground arith) e in
          rw e (ground arith)
    ]

-- The override where there is one, else the default.
abbrev pub overridden : Option String → Option String → Option String
overridden none default = default
overridden (some v) default = some v

get-update :
    (d overrides : Dict String) (k : String)
    → IsUnique overrides
    → get (update d overrides) k ≡ overridden (get overrides k) (get d k)
unfolding get update
get-update d [] k u = refl
get-update d ((j, v) ∷ overrides) k u =
    get-update (put d j v) overrides k u.1 ∙ elim (Bool-cases (str_eq j k)) [
      | inl hit ↦
          let same : j ≡ k = (eq_iff j k).0 hit in
          let gone : get overrides k ≡ none =
            get-absent overrides k (subst (λ x. has overrides x ≡ false) same u.0) in
          rw (gone, get-put d j k v, hit) refl
      | inr miss ↦ rw (get-put d j k v, miss) refl
    ]

law-merged :
    (m : Mapping) (kind : String)
    → IsUnique m.law_by_kind
    → law_for (merged m) kind
      ≡ or_else
          (or_else "refuse" m.default_law)
          (overridden (get m.law_by_kind kind) (get default_policy.law_by_kind kind))
unfolding law_for merged
law-merged m kind u =
    ap (or_else (or_else "refuse" m.default_law))
      (get-update default_policy.law_by_kind m.law_by_kind kind u)

-- If a mapping whose classes are all different becomes a policy, then the law of every kind is the
-- one that the mapping gives it; where it gives none, the default policy's law for the kind; and
-- where that has none, the declared default law, or `refuse` where none is declared. In each case
-- it is a verdict of the lattice.
pub law_for-policy_from_mapping :
    (m : Mapping) (p : ResponsePolicy) (kind : String)
    → IsUnique m.law_by_kind
    → policy_from_mapping m ≡ some p
    → (law_for p kind
        ≡ or_else
            (or_else "refuse" m.default_law)
            (overridden (get m.law_by_kind kind) (get default_policy.law_by_kind kind)))
      × (elem (law_for p kind) verdicts ≡ true)
unfolding policy_from_mapping
law_for-policy_from_mapping m p kind u h = elim (Bool-cases (validate_policy (merged m))) [
  | inl valid ↦
      let same : merged m ≡ p = some-inj (merged m) p (rw valid at h) in
      subst
        (λ q.
          (law_for q kind
            ≡ or_else (or_else "refuse" m.default_law)
                (overridden (get m.law_by_kind kind) (get default_policy.law_by_kind kind)))
          × (elem (law_for q kind) verdicts ≡ true))
        same (law-merged m kind u, (validate_policy-known (merged m) valid).0 kind)
  | inr invalid ↦ absurd (ground arith)
]
