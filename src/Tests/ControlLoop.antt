-- ===== src/Tests/ControlLoop.antt =====
-- Runs of automation/control_loop.py: a system that is a number, which every action lowers by two.
use socio_workspace.Base.{
  ℕ, ◌+◌, ◌*◌, ◌-◌, ◌≡◌, ◌≤◌, ◌⊎◌, refl, Bool, true, false, Option, none, some, [], ◌∷◌, str_eq,
  arith,
}
use socio_workspace.ControlLoop.{
  Config, Error, fin, LoopResult, reached_target, run, heal, mirror_drift_error,
}
use socio_workspace.ControlLoop.Bounded.{run_ends, Ended}
use socio_workspace.ControlLoop.FailClosed.{Honest, run-Honest, heal_verified}
use socio_workspace.ControlLoop.Converges.{run_converges}

abbrev config : Config
config = record {
  max_iterations = 4;
  deadline = 1000;
  target = 0;
  patience = 2;
  safe_state = "safe";
}

abbrev clock : ℕ → ℕ
clock n = 0

abbrev observe : ℕ → ℕ × Option Error
observe n = (n, some (fin n))

abbrev lower : ℕ → ℕ
lower n = n - 2

run_ends_example :
    (w' : ℕ) × (r : LoopResult) × (run config clock observe lower 6 ≡ some (w', r))
    × Ended config clock observe lower 6 w' r
run_ends_example = run_ends config clock observe lower 6

-- The result of a run that finds the system at the target.
abbrev at_once : LoopResult
at_once = record {
  converged = true;
  iterations = 1;
  initial_error = fin 1;
  final_error = fin 1;
  trace = record { iter = 0; error = fin 1; elapsed = 0; acted = false } ∷ [];
  fail_closed_state = none;
  reason = reached_target;
}

run-at_once : run config clock observe lower 1 ≡ some (1, at_once)
unfolding run
run-at_once = refl

run-Honest_example : Honest config clock observe lower at_once
run-Honest_example = run-Honest config clock observe lower 1 1 at_once run-at_once

abbrev in_sync : ℕ → ℕ × Option Bool
in_sync n = (n, some true)

abbrev synced : LoopResult
synced = record {
  converged = true;
  iterations = 1;
  initial_error = fin 0;
  final_error = fin 0;
  trace = record { iter = 0; error = fin 0; elapsed = 0; acted = false } ∷ [];
  fail_closed_state = none;
  reason = reached_target;
}

heal_at_once : heal "mirror_drift" in_sync lower config clock 1 ≡ some (1, synced)
unfolding heal run mirror_drift_error
heal_at_once = refl

heal_verified_example :
    (str_eq "mirror_drift" "mirror_drift" ≡ true) × ((u : ℕ) × (in_sync u ≡ (1, some true)))
heal_verified_example =
    heal_verified in_sync lower config clock (omega arith) "mirror_drift" 1 1 synced heal_at_once
      refl

-- A system that is as far from its target as it has faults, each an error of 1.0.
abbrev faults_error : ℕ → ℕ
faults_error n = 1000000000000 * n

abbrev count_faults : ℕ → ℕ × Option Error
count_faults n = (n, some (fin (faults_error n)))

abbrev repair_one : ℕ → ℕ
repair_one n = n - 1

run_converges_example :
    (w' : ℕ) × (r : LoopResult) × (run config clock count_faults repair_one 4 ≡ some (w', r))
    × (r.converged ≡ true)
run_converges_example =
    run_converges config clock count_faults repair_one faults_error (λ w. refl) 1000000000000
      (omega arith) closer (λ n. omega arith) 4 (omega arith)
  where
    closer :
        (w : ℕ)
        → (faults_error (repair_one w) + 1000000000000 ≤ faults_error w)
          ⊎ (faults_error (repair_one w) ≤ 0 + 1)
    closer w = grind arith
