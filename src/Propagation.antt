-- ===== src/Propagation.antt =====
-- engines/propagation_engine.py: the dependency graph, the propagation rules and the cascade of a
-- change. Repository ids are texts; the normalisation by Python's text methods is a parameter of the
-- graph's construction. A set is the list of its elements in the order of their insertion.
pub mod Graph
pub mod Rules
pub mod Load
pub mod Cascade
pub mod Dispatch
use socio_workspace.Base.{
  ℕ, Bool, true, false, Option, none, some, List, [], ◌∷◌, String, str_eq, if◌then◌else◌,
}
use socio_workspace.Base.Dict
use socio_workspace.Base.Dict.{Dict}

-- x in xs
unfoldable pub elem : String → List String → Bool
elem x [] = false
elem x (y ∷ ys) = if str_eq x y then true else elem x ys

-- A message of a step: the rule's own, "{repo} changed", or "Cascade from {repo}".
pub data Message : Type 0 where
  written changed cascade_from : String → Message

pub record Target : Type 0 where
  pub repo : String
  pub action : String
  pub message : Message
  pub auto_pr : Bool
  pub pr_title : String

pub record Rule : Type 0 where
  pub id : Option String
  pub trigger_repo : String
  pub propagate_to : List Target
  pub max_cascade_depth : Option ℕ

-- The loaded engine, as far as the cascade reads it.
pub record Engine : Type 0 where
  pub adjacency : Dict (List String)
  pub reverse_adjacency : Dict (List String)
  pub rules : List Rule

-- `get_rule`, for a normalised id: the first rule that it triggers.
unfoldable pub get_rule : List Rule → String → Option Rule
get_rule [] repo = none
get_rule (r ∷ rules) repo = if str_eq r.trigger_repo repo then some r else get_rule rules repo

unfoldable pub list_or_empty : Option (List String) → List String
list_or_empty none = []
list_or_empty (some l) = l

-- `dependents_of` and `dependencies_of`, for a normalised id.
unfoldable pub dependents_of : Engine → String → List String
unfolding list_or_empty
dependents_of e repo = list_or_empty (Dict.get e.reverse_adjacency repo)

unfoldable pub dependencies_of : Engine → String → List String
unfolding list_or_empty
dependencies_of e repo = list_or_empty (Dict.get e.adjacency repo)
