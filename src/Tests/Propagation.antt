-- ===== src/Tests/Propagation.antt =====
-- Runs of engines/propagation_engine.py: `b` depends on `a`, and `c` on `b`; a rule for `a` names `d`.
use socio_workspace.Base.{
  refl, Option, String, ◌+◌, ◌≡◌, ◌≤◌, none, some, true, false, List, [], ◌∷◌, map,
}
use socio_workspace.Propagation.{elem, Engine, written, get_rule}
use socio_workspace.Propagation.Graph.{RawEdge, Agrees}
use socio_workspace.Propagation.Rules.{RawRule, LegacyRule}
use socio_workspace.Propagation.Load.{Registry, Pack, archived, load, is_reference}
use socio_workspace.Propagation.Load.Views.{load-Agrees}
use socio_workspace.Propagation.Cascade.{Step, compute_cascade, depth_limit, seeds}
use socio_workspace.Propagation.Cascade.Correct.{IsCascade, compute_cascade-IsCascade}
use socio_workspace.Propagation.Dispatch.{Call, Scm, github, Report, propagate_steps, propagate}
use socio_workspace.Propagation.Dispatch.Sends.{Sent, propagate_steps-Sent}
use socio_workspace.Propagation.Dispatch.Once.{sent_to, propagate-once}
use socio_workspace.Propagation.Dispatch.Dry.{told, propagate_steps-dry}

abbrev engine : Engine
engine = record {
  adjacency = ("b", "a" ∷ []) ∷ ("c", "b" ∷ []) ∷ [];
  reverse_adjacency = ("a", "b" ∷ []) ∷ ("b", "c" ∷ []) ∷ [];
  rules =
      record {
        id = some "r1";
        trigger_repo = "a";
        propagate_to =
            record {
              repo = "d";
              action = "trigger_ci";
              message = written "m";
              auto_pr = false;
              pr_title = "";
            }
            ∷ [];
        max_cascade_depth = none;
      }
      ∷ [];
}

abbrev raw_edges : List RawEdge
raw_edges =
    record { src = some "b"; dst = some "a"; edge_type = "depends_on" }
    ∷ record { src = none; dst = some "a"; edge_type = "depends_on" }
    ∷ []

compute_cascade-IsCascade_example :
    (steps : List Step) × (compute_cascade engine "a" 3 ≡ some steps)
    × IsCascade engine "a" (depth_limit (get_rule engine.rules "a") 3) steps
compute_cascade-IsCascade_example = compute_cascade-IsCascade engine "a" 3

-- A backend with no issues, where every call succeeds.
abbrev scm : Scm
scm = record {
  backend = github;
  open_titles = λ log repo. some [];
  create_ok = λ log repo title. true;
  dispatch_ok = λ log repo. true;
  title = λ source rule. rule;
}

propagate_steps-Sent_example :
    Sent scm true true 1 "a"
      (seeds engine "a")
      []
      (propagate_steps scm true true 1 "a" (seeds engine "a") []).0
propagate_steps-Sent_example = propagate_steps-Sent scm true true 1 "a" (seeds engine "a") []

propagate-once_example :
    (log' : List Call) × (r : Report) × (propagate scm true true 1 engine 3 true "a" []
      ≡ some (log', r))
    × (sent_to "b" log' ≤ sent_to "b" [] + 1)
    × (sent_to "a" log' ≤ sent_to "a" [])
propagate-once_example = propagate-once scm true true 1 engine 3 "a" [] "b"

propagate_steps-dry_example :
    ((propagate_steps scm false false 1 "a" (seeds engine "a") []).0 ≡ [])
    × (map told (propagate_steps scm false false 1 "a" (seeds engine "a") []).1
        ≡ map told (propagate_steps scm false true 1 "a" (seeds engine "a") []).1)
propagate_steps-dry_example = propagate_steps-dry scm false 1 "a" (seeds engine "a") []

abbrev raw_rules : List (Option RawRule)
raw_rules =
    some (record {
      id = some "r1";
      nested = some "a";
      flat = none;
      propagate_to = none;
      cascades =
          some (record {
            repo = some "d";
            action = none;
            message = none;
            auto_pr = none;
            pr_title = none;
          })
          ∷ some (record {
            repo = none;
            action = none;
            message = none;
            auto_pr = none;
            pr_title = none;
          })
          ∷ [];
      max_cascade_depth = some 2;
    })
    ∷ none
    ∷ []

abbrev legacy_rules : List (String × Option LegacyRule)
legacy_rules =
    (
      "b",
      some (record {
        automation = some (record { action_type = none; targets = some "c" ∷ none ∷ [] }) ∷ [];
        trigger = "merge";
        max_cascade_depth = none;
      }),
    )
    ∷ ("", none)
    ∷ []

abbrev reference_pack : Pack
reference_pack = record {
  non_claims = "does_not_create_runtime_dependency" ∷ [];
  edges =
      some (record { src = some "x"; dst = some "y"; edge_type = "records"; state = "Active" })
      ∷ none
      ∷ [];
}

abbrev registry : Registry
registry = record {
  edges = map some raw_edges;
  packs = reference_pack ∷ [];
  dependencies =
      (
        "c",
        some (record {
          depends_on = record { name = some "b"; dep_type = none } ∷ [];
          dependents = [];
        }),
      )
      ∷ [];
  dependency_levels = (archived, "z" ∷ []) ∷ [];
  rules = raw_rules;
  propagation_rules = legacy_rules;
}

load-Agrees_example :
    Agrees (load (λ s. s) (λ s. s) registry).graph
    × Agrees (load (λ s. s) (λ s. s) registry).references
load-Agrees_example = load-Agrees (λ s. s) (λ s. s) registry

reference_pack-marked : is_reference reference_pack ≡ true
unfolding elem
reference_pack-marked = refl
