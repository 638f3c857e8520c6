-- ===== src/Propagation/Rules.antt =====
-- The rules of `PropagationEngine.load` of engines/propagation_engine.py, in their two forms, on files
-- that are parsed: an entry that is not a mapping where one is expected is `none`, and so is a
-- missing value.
pub mod Named
use socio_workspace.Base.{ℕ, Bool, true, false, Option, none, some, List, [], ◌∷◌, ◌++◌, String}
use Prim.Native.String.{◌++◌ as joined}
use socio_workspace.Propagation.{Target, Rule, Message, written}
use socio_workspace.Propagation.Graph.{normalize_repo_id}

-- A target of `propagate_to`; in a cascade, `repo` is its `target` and `message` its `reason`.
pub record RawTarget : Type 0 where
  pub repo : Option String
  pub action : Option String
  pub message : Option String
  pub auto_pr : Option Bool
  pub pr_title : Option String

-- A rule of the list `rules`: `nested` is `trigger.repo`, `flat` is `trigger_repo`.
pub record RawRule : Type 0 where
  pub id : Option String
  pub nested : Option String
  pub flat : Option String
  pub propagate_to : Option (List (Option RawTarget))
  pub cascades : List (Option RawTarget)
  pub max_cascade_depth : Option ℕ

pub record LegacyAction : Type 0 where
  pub action_type : Option String
  pub targets : List (Option String)

-- `on_main_merge` of an entry of `propagation_rules`.
pub record LegacyRule : Type 0 where
  pub automation : List (Option LegacyAction)
  pub trigger : String
  pub max_cascade_depth : Option ℕ

abbrev pub or_text : Option String → String → String
or_text none default = default
or_text (some s) default = s

-- A target, with the values that a missing field stands for.
unfoldable pub target_of : String → RawTarget → Target
target_of repo t = record {
  repo = repo;
  action = or_text t.action "notify";
  message = written (or_text t.message "");
  auto_pr = elim t.auto_pr [ none ↦ false | some b ↦ b ];
  pr_title = or_text t.pr_title "";
}

unfoldable pub add_target : Option String → (String → Target) → List Target → List Target
add_target none make targets = targets
add_target (some repo) make targets = make repo ∷ targets

unfoldable pub trigger_of : RawRule → Option String
trigger_of r = elim r.nested [ none ↦ r.flat | some t ↦ some t ]

unfoldable pub legacy_target : LegacyRule → LegacyAction → String → Target
legacy_target rule action repo = record {
  repo = repo;
  action = or_text action.action_type "notify";
  message = written rule.trigger;
  auto_pr = false;
  pr_title = "";
}

module _ (normalize : String → String) where
  -- The loop over `cascades`, and that over `propagate_to`.
  unfoldable pub load_targets : List (Option RawTarget) → List Target
  unfolding target_of add_target
  load_targets [] = []
  load_targets (none ∷ targets) = load_targets targets
  load_targets (some t ∷ targets) =
      add_target (normalize_repo_id normalize t.repo) (λ repo. target_of repo t)
        (load_targets targets)

  unfoldable pub add_rule : Option String → RawRule → List Rule → List Rule
  unfolding load_targets
  add_rule none r rules = rules
  add_rule (some trigger) r rules =
      record {
        id = r.id;
        trigger_repo = trigger;
        propagate_to = elim r.propagate_to [
          | none ↦ load_targets r.cascades
          | some targets ↦ load_targets targets
        ];
        max_cascade_depth = r.max_cascade_depth;
      }
      ∷ rules

  unfoldable pub load_rules : List (Option RawRule) → List Rule
  unfolding trigger_of add_rule
  load_rules [] = []
  load_rules (none ∷ rules) = load_rules rules
  load_rules (some r ∷ rules) =
      add_rule (normalize_repo_id normalize (trigger_of r)) r (load_rules rules)

  unfoldable pub action_targets : LegacyRule → LegacyAction → List (Option String) → List Target
  unfolding legacy_target add_target
  action_targets rule action [] = []
  action_targets rule action (t ∷ targets) =
      add_target (normalize_repo_id normalize t) (legacy_target rule action)
        (action_targets rule action targets)

  unfoldable pub legacy_targets : LegacyRule → List (Option LegacyAction) → List Target
  unfolding action_targets
  legacy_targets rule [] = []
  legacy_targets rule (none ∷ actions) = legacy_targets rule actions
  legacy_targets rule (some a ∷ actions) =
      action_targets rule a a.targets ++ legacy_targets rule actions

  unfoldable pub add_legacy : Option String → LegacyRule → List Rule → List Rule
  unfolding legacy_targets
  add_legacy none rule rules = rules
  add_legacy (some trigger) rule rules =
      record {
        id = some (joined "legacy-" trigger);
        trigger_repo = trigger;
        propagate_to = legacy_targets rule rule.automation;
        max_cascade_depth = rule.max_cascade_depth;
      }
      ∷ rules

  unfoldable pub load_legacy : List (String × Option LegacyRule) → List Rule
  unfolding add_legacy
  load_legacy [] = []
  load_legacy ((name, none) ∷ rules) = load_legacy rules
  load_legacy ((name, some rule) ∷ rules) =
      add_legacy (normalize_repo_id normalize (some name)) rule (load_legacy rules)

  -- `self._rules`
  unfoldable pub load_all_rules :
      List (Option RawRule) → List (String × Option LegacyRule) → List Rule
  unfolding load_rules load_legacy
  load_all_rules rules legacy = load_rules rules ++ load_legacy legacy
