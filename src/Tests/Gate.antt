-- ===== src/Tests/Gate.antt =====
-- Runs of the gate of gbrg/governance/gate.py.
use socio_workspace.Base.{◌≡◌, ◌≢◌, ◌≤◌, inr, ◌↔◌, true, false, String, none, arith, eq_iff}
use socio_workspace.Gbrg.Gate.{
  ProofArtifact, millionths, no_count, negative, Decision, exited, blast, blast_include_floor,
  gate_inclusion,
}
use socio_workspace.Gbrg.Gate.Meet.{IsReviewable, Allows, silent, gate_inclusion_iff}

abbrev artifact : ProofArtifact
artifact = record {
  cell_id = "cell";
  proof_id = "proof";
  epistemic_level = "canonical";
  status = "PASSED";
  tested = true;
  generated = false;
  blast_radius = millionths 300000;
  dependents_count = no_count;
}

abbrev lying : ProofArtifact
lying = record artifact { blast_radius = negative }

abbrev seal_of_decision : Decision → String
seal_of_decision d = d.cell_id

not_rejected : artifact.epistemic_level ≢ "rejected"
not_rejected h = ground (arith, (eq_iff "canonical" "rejected").1 h)

not_failed : artifact.status ≢ "FAILED"
not_failed h = ground (arith, (eq_iff "PASSED" "FAILED").1 h)

not_blocked : artifact.status ≢ "BLOCKED"
not_blocked h = ground (arith, (eq_iff "PASSED" "BLOCKED").1 h)

reviewable : IsReviewable artifact
unfolding blast
reviewable = record {
  live_level = not_rejected;
  not_failed = not_failed;
  not_blocked = not_blocked;
  worth = inr worth;
}
  where
    worth : blast_include_floor ≤ blast (millionths 300000)
    worth = omega arith

-- The authority ended with code 0 and an output that cannot be parsed.
gate_inclusion_iff_example :
    ((gate_inclusion seal_of_decision "agent" "now" (exited 0 none) artifact).core.included ≡ true)
    ↔ (IsReviewable artifact × Allows (exited 0 none))
gate_inclusion_iff_example =
    gate_inclusion_iff seal_of_decision "agent" "now" (exited 0 none) artifact

included :
    (gate_inclusion seal_of_decision "agent" "now" (exited 0 none) artifact).core.included ≡ true
included =
    (gate_inclusion_iff seal_of_decision "agent" "now" (exited 0 none) artifact).1
      (reviewable, silent)
