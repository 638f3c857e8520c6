-- ===== src/Propagation/Rules/Named.antt =====
-- The rules that `load` of engines/propagation_engine.py keeps.
use socio_workspace.Base.{
  ◌≡◌, ◌≢◌, inl, inr, refl, Option, none, some, List, [], ◌∷◌, String, str_eq, eq_iff, arith,
  Bool-cases, Option-cases, All, All-append,
}
use socio_workspace.Propagation.{Target, Rule}
use socio_workspace.Propagation.Graph.{normalize_repo_id}
use socio_workspace.Propagation.Rules.{
  RawTarget, RawRule, LegacyRule, LegacyAction, load_targets, add_target, target_of, add_rule,
  load_rules, action_targets, legacy_target, legacy_targets, add_legacy, load_legacy,
  load_all_rules, trigger_of,
}

-- The rule and all its targets have a name.
pub record IsNamed (r : Rule) : Type 0 where
  pub trigger : r.trigger_repo ≢ ""
  pub targets : All (λ t. t.repo ≢ "") r.propagate_to

-- A name, if there is one, is not empty.
abbrev IsFull : Option String → Type 0
IsFull none = Unit
IsFull (some s) = s ≢ ""

module _ (normalize : String → String) where
  IsFull-normalize : (name : Option String) → IsFull (normalize_repo_id normalize name)
  unfolding normalize_repo_id
  IsFull-normalize none = tt
  IsFull-normalize (some r) = elim (Bool-cases (str_eq (normalize r) "")) [
    | inl empty ↦ rw empty tt
    | inr full ↦ rw full (λ e. ground (arith, full, (eq_iff (normalize r) "").1 e))
  ]

  add_target-full :
      (repo : Option String) (make : String → Target) (targets : List Target)
      → IsFull repo
      → ((s : String) → (make s).repo ≡ s)
      → All (λ t. t.repo ≢ "") targets
      → All (λ t. t.repo ≢ "") (add_target repo make targets)
  unfolding add_target
  add_target-full none make targets f h a = a
  add_target-full (some repo) make targets f h a = (rw (h repo) f, a)

  load_targets-full :
      (targets : List (Option RawTarget)) → All (λ t. t.repo ≢ "") (load_targets normalize targets)
  unfolding load_targets target_of
  load_targets-full [] = tt
  load_targets-full (none ∷ targets) = load_targets-full targets
  load_targets-full (some t ∷ targets) =
      add_target-full (normalize_repo_id normalize t.repo) (λ repo. target_of repo t)
        (load_targets normalize targets) (IsFull-normalize t.repo) (λ s. refl)
        (load_targets-full targets)

  add_rule-IsNamed :
      (trigger : Option String) (r : RawRule) (rules : List Rule)
      → IsFull trigger
      → All IsNamed rules
      → All IsNamed (add_rule normalize trigger r rules)
  unfolding add_rule
  add_rule-IsNamed none r rules f a = a
  add_rule-IsNamed (some trigger) r rules f a = elim (Option-cases r.propagate_to) [
    | inl no_targets ↦
        (record { trigger = f; targets = rw no_targets (load_targets-full r.cascades) }, a)
    | inr (targets, given) ↦
        (record { trigger = f; targets = rw given (load_targets-full targets) }, a)
  ]

  load_rules-IsNamed : (rules : List (Option RawRule)) → All IsNamed (load_rules normalize rules)
  unfolding load_rules
  load_rules-IsNamed [] = tt
  load_rules-IsNamed (none ∷ rules) = load_rules-IsNamed rules
  load_rules-IsNamed (some r ∷ rules) =
      add_rule-IsNamed (normalize_repo_id normalize (trigger_of r)) r (load_rules normalize rules)
        (IsFull-normalize _) (load_rules-IsNamed rules)

  action_targets-full :
      (rule : LegacyRule) (a : LegacyAction) (targets : List (Option String))
      → All (λ t. t.repo ≢ "") (action_targets normalize rule a targets)
  unfolding action_targets legacy_target
  action_targets-full rule a [] = tt
  action_targets-full rule a (t ∷ targets) =
      add_target-full (normalize_repo_id normalize t) (legacy_target rule a)
        (action_targets normalize rule a targets) (IsFull-normalize t) (λ s. refl)
        (action_targets-full rule a targets)

  legacy_targets-full :
      (rule : LegacyRule) (actions : List (Option LegacyAction))
      → All (λ t. t.repo ≢ "") (legacy_targets normalize rule actions)
  unfolding legacy_targets
  legacy_targets-full rule [] = tt
  legacy_targets-full rule (none ∷ actions) = legacy_targets-full rule actions
  legacy_targets-full rule (some a ∷ actions) =
      All-append (λ t. t.repo ≢ "") (action_targets normalize rule a a.targets)
        (legacy_targets normalize rule actions) (action_targets-full rule a a.targets)
        (legacy_targets-full rule actions)

  add_legacy-IsNamed :
      (trigger : Option String) (rule : LegacyRule) (rules : List Rule)
      → IsFull trigger
      → All IsNamed rules
      → All IsNamed (add_legacy normalize trigger rule rules)
  unfolding add_legacy
  add_legacy-IsNamed none rule rules f a = a
  add_legacy-IsNamed (some trigger) rule rules f a =
      (record { trigger = f; targets = legacy_targets-full rule rule.automation }, a)

  load_legacy-IsNamed :
      (rules : List (String × Option LegacyRule)) → All IsNamed (load_legacy normalize rules)
  unfolding load_legacy
  load_legacy-IsNamed [] = tt
  load_legacy-IsNamed ((name, none) ∷ rules) = load_legacy-IsNamed rules
  load_legacy-IsNamed ((name, some rule) ∷ rules) =
      add_legacy-IsNamed (normalize_repo_id normalize (some name)) rule
        (load_legacy normalize rules) (IsFull-normalize _) (load_legacy-IsNamed rules)

  -- Every rule that is kept, of either form, has a trigger with a name, and only targets with a name.
  pub load_all_rules-IsNamed :
      (rules : List (Option RawRule)) (legacy : List (String × Option LegacyRule))
      → All IsNamed (load_all_rules normalize rules legacy)
  unfolding load_all_rules
  load_all_rules-IsNamed rules legacy =
      All-append IsNamed (load_rules normalize rules) (load_legacy normalize legacy)
        (load_rules-IsNamed rules) (load_legacy-IsNamed legacy)
