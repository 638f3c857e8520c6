-- ===== src/Policy.antt =====
-- automation/policy.py: the declared policy of the responder. The thresholds are natural numbers:
-- the block of the identity risk in units of 1/10000, the cooldown in microseconds, so that neither
-- is below zero. A YAML mapping is a record of optional fields.
pub mod Merge
use socio_workspace.Base.{
  ℕ, ◌*◌, Bool, true, false, not, ◌&&◌, Option, none, some, List, [], ◌∷◌, map, String, leb, all,
  if◌then◌else◌,
}
use socio_workspace.Base.Dict.{Dict, get, put}
use socio_workspace.Propagation.{elem}

abbrev pub verdicts : List String
verdicts = "refuse" ∷ "quarantine" ∷ "weak" ∷ "probable" ∷ "sealed" ∷ []

abbrev pub actions : List String
actions = "auto_fix" ∷ "canary_fix" ∷ "propose_pr" ∷ "quarantine" ∷ "block" ∷ "escalate_human" ∷ []

pub record ResponsePolicy : Type 0 where
  pub law_by_kind : Dict String
  pub verdict_action : Dict String
  pub default_law : String
  pub iri_block : ℕ
  pub boundary_axes : List String
  pub suppression_cooldown : ℕ

-- `get` with a default
abbrev pub or_else {ℓ} : {A : Type ℓ} → A → Option A → A
or_else x none = x
or_else x (some y) = y

unfoldable pub law_for : ResponsePolicy → String → String
law_for p kind = or_else p.default_law (get p.law_by_kind kind)

unfoldable pub action_for : ResponsePolicy → String → String
action_for p verdict = or_else "escalate_human" (get p.verdict_action verdict)

abbrev pub default_axes : List String
default_axes =
    "legality" ∷ "containment" ∷ "provenance" ∷ "privacy" ∷ "performance" ∷ "reproducibility"
    ∷ "licensing" ∷ "governance" ∷ []

abbrev pub default_policy : ResponsePolicy
default_policy = record {
  law_by_kind =
      ("mirror_drift", "sealed")
      ∷ ("vendored_graph_drift", "sealed")
      ∷ ("build_failure", "probable")
      ∷ ("stale_vendor", "weak")
      ∷ ("deploy_regression", "weak")
      ∷ ("workspace_lock_drift", "weak")
      ∷ ("policy_violation", "quarantine")
      ∷ ("unknown", "refuse")
      ∷ [];
  verdict_action =
      ("sealed", "auto_fix")
      ∷ ("probable", "canary_fix")
      ∷ ("weak", "propose_pr")
      ∷ ("quarantine", "quarantine")
      ∷ ("refuse", "block")
      ∷ [];
  default_law = "refuse";
  iri_block = 5500;
  boundary_axes = default_axes;
  suppression_cooldown = 3600 * 1000000;
}

unfoldable pub is_law : String × String → Bool
is_law (kind, law) = elem law verdicts

unfoldable pub is_action : String × String → Bool
is_action (verdict, action) = elem verdict verdicts && elem action actions

unfoldable pub is_nil : List String → Bool
is_nil [] = true
is_nil (_ ∷ _) = false

-- Whether `validate_policy` returns.
unfoldable pub validate_policy : ResponsePolicy → Bool
validate_policy p =
    all is_law p.law_by_kind
    && (elem p.default_law verdicts
        && (all is_action p.verdict_action
            && (leb p.iri_block 10000 && not (is_nil p.boundary_axes))))

-- A declared mapping, with the keys that it leaves out.
pub record Mapping : Type 0 where
  pub law_by_kind : Dict String
  pub verdict_action : Dict String
  pub default_law : Option String
  pub iri_block : Option ℕ
  pub boundary_axes : List String
  pub suppression_cooldown : Option ℕ

-- {**d, **overrides}
unfoldable pub update : Dict String → Dict String → Dict String
update d [] = d
update d ((k, v) ∷ overrides) = update (put d k v) overrides

unfoldable pub merged : Mapping → ResponsePolicy
merged m = record {
  law_by_kind = update default_policy.law_by_kind m.law_by_kind;
  verdict_action = update default_policy.verdict_action m.verdict_action;
  default_law = or_else default_policy.default_law m.default_law;
  iri_block = or_else default_policy.iri_block m.iri_block;
  boundary_axes = if is_nil m.boundary_axes then default_policy.boundary_axes else m.boundary_axes;
  suppression_cooldown = or_else default_policy.suppression_cooldown m.suppression_cooldown;
}

-- `none` is a `ValueError`.
unfoldable pub policy_from_mapping : Mapping → Option ResponsePolicy
policy_from_mapping m = if validate_policy (merged m) then some (merged m) else none
