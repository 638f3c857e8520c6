-- ===== src/Propagation/Load.antt =====
-- `PropagationEngine.load` of engines/propagation_engine.py, on registry files that are parsed: an
-- entry that is not a mapping where one is expected is `none`, and so is a missing value. The name of
-- a lane and of a pack, which only reports read, are left out.
pub mod Views
use socio_workspace.Base.{
  ℕ, Bool, true, false, not, ◌||◌, Option, none, some, List, [], ◌∷◌, ◌++◌, String, str_eq,
  if◌then◌else◌,
}
use socio_workspace.Base.Dict
use socio_workspace.Base.Dict.{Dict}
use socio_workspace.Propagation.{elem, Target, Rule, Message, written, Engine}
use socio_workspace.Propagation.Rules.{RawRule, LegacyRule, or_text, load_all_rules}
use socio_workspace.Propagation.Graph.{
  Graph, empty_graph, add_edge, join, normalize_repo_id, RawEdge,
}

-- An edge of a pack; `state` is "active" if it is missing.
pub record PackEdge : Type 0 where
  pub src : Option String
  pub dst : Option String
  pub edge_type : String
  pub state : String

-- A file registry/*-dependency-edges.yaml.
pub record Pack : Type 0 where
  pub non_claims : List String
  pub edges : List (Option PackEdge)

-- A dependency or a dependent: its name, and its type if it has one.
pub record Dep : Type 0 where
  pub name : Option String
  pub dep_type : Option String

pub record Entry : Type 0 where
  pub depends_on : List Dep
  pub dependents : List Dep

-- The level of the key "archived" is -1.
pub data Level : Type 0 where
  archived : Level
  level : ℕ → Level

-- The files, the packs in the order of their paths.
pub record Registry : Type 0 where
  pub edges : List (Option RawEdge)
  pub packs : List Pack
  pub dependencies : List (String × Option Entry)
  pub dependency_levels : List (Level × List String)
  pub rules : List (Option RawRule)
  pub propagation_rules : List (String × Option LegacyRule)

-- What the engine holds after the load.
pub record Loaded : Type 0 where
  pub graph : Graph
  pub references : Graph
  pub dep_levels : Dict Level
  pub rules : List Rule

abbrev pub is_reference : Pack → Bool
is_reference p = elem "does_not_create_runtime_dependency" p.non_claims

unfoldable pub set_level : Level → Option String → Dict Level → Dict Level
set_level l none levels = levels
set_level l (some repo) levels = Dict.put levels repo l

module _ (normalize lower : String → String) where
  unfoldable pub load_edges : List (Option RawEdge) → Graph → Graph
  unfolding add_edge
  load_edges [] g = g
  load_edges (none ∷ edges) g = load_edges edges g
  load_edges (some e ∷ edges) g = load_edges edges (add_edge normalize e.src e.dst e.edge_type g)

  unfoldable pub is_in_use : PackEdge → Bool
  is_in_use e = str_eq (lower e.state) "active" || str_eq (lower e.state) "in_use"

  -- The edges of a pack that are in use, as dependencies. The names are normalised here, and again
  -- by `add_edge`.
  unfoldable pub pack_dependencies : List (Option PackEdge) → Graph → Graph
  unfolding is_in_use add_edge
  pack_dependencies [] g = g
  pack_dependencies (none ∷ edges) g = pack_dependencies edges g
  pack_dependencies (some e ∷ edges) g =
      let src = normalize_repo_id normalize e.src in
      let dst = normalize_repo_id normalize e.dst in
      pack_dependencies edges (if is_in_use e then add_edge normalize src dst e.edge_type g else g)

  -- The same, as references: `_ref_adjacency`, `_ref_reverse_adjacency` and `_reference_edges`.
  unfoldable pub pack_references : List (Option PackEdge) → Graph → Graph
  unfolding is_in_use join
  pack_references [] g = g
  pack_references (none ∷ edges) g = pack_references edges g
  pack_references (some e ∷ edges) g =
      let src = normalize_repo_id normalize e.src in
      let dst = normalize_repo_id normalize e.dst in
      pack_references edges (if is_in_use e then join e.edge_type src dst g else g)

  -- The loop over the packs: the dependencies and the references.
  unfoldable pub load_packs : List Pack → Graph → Graph → Graph × Graph
  unfolding pack_dependencies pack_references
  load_packs [] g refs = (g, refs)
  load_packs (p ∷ packs) g refs =
      if is_reference p
      then load_packs packs g (pack_references p.edges refs)
      else load_packs packs (pack_dependencies p.edges g) refs

  unfoldable pub load_depends_on : String → List Dep → Graph → Graph
  unfolding add_edge
  load_depends_on repo [] g = g
  load_depends_on repo (d ∷ deps) g =
      load_depends_on repo deps
        (add_edge normalize (some repo) d.name (or_text d.dep_type "depends_on") g)

  unfoldable pub load_dependents : String → List Dep → Graph → Graph
  unfolding add_edge
  load_dependents repo [] g = g
  load_dependents repo (d ∷ deps) g =
      load_dependents repo deps
        (add_edge normalize d.name (some repo) (or_text d.dep_type "dependent") g)

  unfoldable pub load_entry : Option String → Option Entry → Graph → Graph
  unfolding load_depends_on load_dependents
  load_entry none entry g = g
  load_entry (some repo) none g = g
  load_entry (some repo) (some entry) g =
      load_dependents repo entry.dependents (load_depends_on repo entry.depends_on g)

  unfoldable pub load_dependencies : List (String × Option Entry) → Graph → Graph
  unfolding load_entry
  load_dependencies [] g = g
  load_dependencies ((name, entry) ∷ entries) g =
      load_dependencies entries (load_entry (normalize_repo_id normalize (some name)) entry g)

  unfoldable pub load_level : Level → List String → Dict Level → Dict Level
  unfolding set_level
  load_level l [] levels = levels
  load_level l (repo ∷ repos) levels =
      load_level l repos (set_level l (normalize_repo_id normalize (some repo)) levels)

  unfoldable pub load_levels : List (Level × List String) → Dict Level → Dict Level
  unfolding load_level
  load_levels [] levels = levels
  load_levels ((l, repos) ∷ rest) levels = load_levels rest (load_level l repos levels)

  unfoldable pub load : Registry → Loaded
  unfolding load_edges load_packs load_dependencies load_levels load_all_rules
  load raw =
      let (g, refs) = load_packs raw.packs (load_edges raw.edges empty_graph) empty_graph in
      record {
        graph = load_dependencies raw.dependencies g;
        references = refs;
        dep_levels = load_levels raw.dependency_levels [];
        rules = load_all_rules normalize raw.rules raw.propagation_rules;
      }

-- The part that `compute_cascade` reads.
abbrev pub engine_of : Loaded → Engine
engine_of l = record {
  adjacency = l.graph.adjacency;
  reverse_adjacency = l.graph.reverse_adjacency;
  rules = l.rules;
}
