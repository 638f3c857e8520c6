-- ===== src/Propagation/Cascade.antt =====
-- `compute_cascade`: a breadth-first walk over the dependents.
pub mod Loop
pub mod Invariant
pub mod Sort
pub mod Correct
use socio_workspace.Base.{
  ℕ, zero, suc, ◌+◌, Bool, true, false, Option, none, some, List, [], ◌∷◌, ◌++◌, map, String,
  str_eq, leb, length, if◌then◌else◌,
}
use Prim.Native.Nat.{min}
use socio_workspace.Base.Dict.{Dict}
use socio_workspace.Propagation.{
  elem, Message, written, changed, cascade_from, Target, Rule, Engine, get_rule, dependents_of,
}

pub record Step : Type 0 where
  pub depth : ℕ
  pub repo : String
  pub action : String
  pub message : Message
  pub auto_pr : Bool
  pub pr_title : String
  pub source_rule : String

pub record Pending : Type 0 where
  pub repo : String
  pub depth : ℕ
  pub source_rule : String

-- The local variables of the walk.
pub record Walk : Type 0 where
  pub visited : List String
  pub queue : List Pending
  pub results : List Step

abbrev pub pending : Step → Pending
pending s = record { repo = s.repo; depth = s.depth; source_rule = s.source_rule }

unfoldable pub add : Step → Walk → Walk
add s w = record {
  visited = w.visited ++ s.repo ∷ [];
  queue = w.queue ++ pending s ∷ [];
  results = w.results ++ s ∷ [];
}

-- The body of both `for` loops: a repository that was visited is skipped.
unfoldable pub offer : Step → Walk → Walk
unfolding add
offer s w = if elem s.repo w.visited then w else add s w

unfoldable pub offer_all : List Step → Walk → Walk
offer_all [] w = w
offer_all (s ∷ steps) w = offer_all steps (offer s w)

-- The targets with a name; `if not repo … continue`.
unfoldable pub named : List Target → List Target
named [] = []
named (t ∷ targets) = if str_eq t.repo "" then named targets else t ∷ named targets

-- The dependents that no rule names.
unfoldable pub implied : String → List String → List String → List Target
implied from explicit [] = []
implied from explicit (dep ∷ deps) =
    if elem dep explicit
    then implied from explicit deps
    else record {
      repo = dep;
      action = "notify";
      message = changed from;
      auto_pr = false;
      pr_title = "";
    }
      ∷ implied from explicit deps

unfoldable pub rule_targets : Option Rule → List Target
rule_targets none = []
rule_targets (some r) = r.propagate_to

unfoldable pub rule_id : Option Rule → String
rule_id none = "dependency_graph"
rule_id (some r) = elim r.id [ none ↦ "dependency_graph" | some i ↦ i ]

-- `max_depth`, lowered by the rule.
unfoldable pub depth_limit : Option Rule → ℕ → ℕ
depth_limit none limit = limit
depth_limit (some r) limit = elim r.max_cascade_depth [ none ↦ limit | some d ↦ min limit d ]

unfoldable pub seed_targets : Engine → String → List Target
unfolding rule_targets implied
seed_targets e repo =
    let explicit = rule_targets (get_rule e.rules repo) in
    explicit ++ implied repo (map (λ t. t.repo) explicit) (dependents_of e repo)

unfoldable pub seed_step : String → Target → Step
seed_step id t = record {
  depth = 1;
  repo = t.repo;
  action = t.action;
  message = t.message;
  auto_pr = t.auto_pr;
  pr_title = t.pr_title;
  source_rule = id;
}

unfoldable pub seeds : Engine → String → List Step
unfolding seed_targets named seed_step rule_id
seeds e repo = map (seed_step (rule_id (get_rule e.rules repo))) (named (seed_targets e repo))

unfoldable pub derived_step : Pending → String → Step
derived_step p downstream = record {
  depth = p.depth + 1;
  repo = downstream;
  action = "notify";
  message = cascade_from p.repo;
  auto_pr = false;
  pr_title = "";
  source_rule = p.source_rule;
}

-- One round of the `while` loop, after `p` left the queue.
unfoldable pub expand : Engine → ℕ → Pending → Walk → Walk
unfolding offer_all derived_step
expand e limit p w =
    if leb limit p.depth then w else offer_all (map (derived_step p) (dependents_of e p.repo)) w

-- `none` means that the fuel ran out.
unfoldable pub loop : Engine → ℕ → ℕ → Walk → Option Walk
loop e limit zero w = none
loop e limit (suc fuel) w = elim w.queue [
  | [] ↦ some w
  | p ∷ rest ↦ loop e limit fuel (expand e limit p (record w { queue = rest }))
]

-- All ends of the edges, with repetitions.
unfoldable pub edge_ends : Dict (List String) → List String
edge_ends [] = []
edge_ends ((k, deps) ∷ d) = deps ++ edge_ends d

unfoldable pub start : Engine → String → Walk
unfolding offer_all seeds
start e repo = offer_all (seeds e repo) (record { visited = repo ∷ []; queue = []; results = [] })

-- `results.sort(key=depth)`: a stable sort, by insertion.
unfoldable pub insert_step : Step → List Step → List Step
insert_step s [] = s ∷ []
insert_step s (t ∷ steps) = if leb s.depth t.depth then s ∷ t ∷ steps else t ∷ insert_step s steps

unfoldable pub sort_steps : List Step → List Step
unfolding insert_step
sort_steps [] = []
sort_steps (s ∷ steps) = insert_step s (sort_steps steps)

unfoldable pub sorted_results : Option Walk → Option (List Step)
unfolding sort_steps
sorted_results none = none
sorted_results (some w) = some (sort_steps w.results)

-- The whole method. The fuel is one more than the edges and the seeds together.
unfoldable pub compute_cascade : Engine → String → ℕ → Option (List Step)
unfolding start loop edge_ends sorted_results
compute_cascade e repo max_depth =
    let fuel = length (edge_ends e.reverse_adjacency) + length (seeds e repo) + 1 in
    sorted_results (loop e (depth_limit (get_rule e.rules repo) max_depth) fuel (start e repo))
