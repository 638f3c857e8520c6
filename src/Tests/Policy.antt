-- ===== src/Tests/Policy.antt =====
-- Runs of automation/policy.py and automation/suppression.py.
use socio_workspace.Base.{ℕ, ◌≡◌, refl, true, none, some, List, [], ◌∷◌, String, arith}
use socio_workspace.Base.Dict.{get, has, put}
use socio_workspace.Propagation.{elem}
use socio_workspace.Policy.{
  Mapping, merged, policy_from_mapping, law_for, or_else, default_policy, verdicts, validate_policy,
  update, is_law, is_action, is_nil,
}
use socio_workspace.Policy.Merge.{overridden, law_for-policy_from_mapping}
use socio_workspace.Suppression.{decided}
use socio_workspace.Suppression.Spaced.{IsSpaced, decided-IsSpaced}

-- One class is tightened, and one is new.
abbrev tighter : Mapping
tighter = record {
  law_by_kind = ("build_failure", "weak") ∷ ("disk_full", "quarantine") ∷ [];
  verdict_action = [];
  default_law = none;
  iri_block = some 4000;
  boundary_axes = [];
  suppression_cooldown = none;
}

law_for-policy_from_mapping_example :
    (law_for (merged tighter) "build_failure"
      ≡ or_else (or_else "refuse" none) (
          overridden
            (get tighter.law_by_kind "build_failure")
            (get default_policy.law_by_kind "build_failure")))
    × (elem (law_for (merged tighter) "build_failure") verdicts ≡ true)
unfolding policy_from_mapping validate_policy merged update is_law is_action is_nil elem put has
law_for-policy_from_mapping_example =
    law_for-policy_from_mapping tighter (merged tighter) "build_failure" (refl, (refl, tt)) refl

abbrev seen : List (String × ℕ)
seen = ("k", 10) ∷ ("other", 11) ∷ ("k", 12) ∷ ("k", 20) ∷ []

decided-IsSpaced_example : IsSpaced 5 (get [] "k") (decided 5 "k" seen [])
decided-IsSpaced_example = decided-IsSpaced 5 "k" seen [] (omega arith)
