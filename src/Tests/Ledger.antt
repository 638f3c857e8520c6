-- ===== src/Tests/Ledger.antt =====
-- Runs of the ledger of gbrg/governance/ledger.py and of its writer, under a hash that keeps its whole
-- argument.
use socio_workspace.Base.{
  ◌≡◌, ◌≢◌, refl, ◌+◌, true, false, String, List, [], ◌∷◌, ◌++◌, some, none, arith, length, eq_iff,
}
use socio_workspace.Gbrg.Gate.{
  Decision, Sealed, gate_inclusion, exited, ProofArtifact, millionths, no_count,
}
use socio_workspace.Gbrg.Ledger.{
  EventCore, Record, event, decision, verify_head, verify_ledger, verified, broken, broken_link,
  emit_event, check_record,
}
use socio_workspace.Gbrg.Ledger.Verify.{chain_head_of}
use socio_workspace.Gbrg.Ledger.Chain.{emit_event-verifies, emit_event-breaks_after_decision}
use socio_workspace.Gbrg.Ledger.Tamper.{verify_head_unique}
use socio_workspace.Tests.Hash.{join_texts, join_texts-inj, join_texts-full}

abbrev hash_of : EventCore → String
hash_of core = join_texts core.prev_hash core.body

abbrev seal_of_decision : Decision → String
seal_of_decision d = d.cell_id

hash_of-inj : (a b : EventCore) → hash_of a ≡ hash_of b → a ≡ b
hash_of-inj a b h = let (p, q) = join_texts-inj a.prev_hash a.body b.prev_hash b.body h in cc

abbrev first_event : Record
first_event = event (record { prev_hash = ""; body = "a" }) "ea"

abbrev one_event : List Record
one_event = first_event ∷ []

one_event-verifies : verify_ledger hash_of seal_of_decision "" one_event ≡ verified (some "ea")
unfolding verify_ledger check_record
one_event-verifies = refl

one_event-anchored : verify_head hash_of seal_of_decision "" "ea" one_event ≡ verified (some "ea")
unfolding verify_head check_record
one_event-anchored = refl

abbrev artifact : ProofArtifact
artifact = record {
  cell_id = "cell";
  proof_id = "proof";
  epistemic_level = "canonical";
  status = "PASSED";
  tested = true;
  generated = false;
  blast_radius = millionths 300000;
  dependents_count = no_count;
}

abbrev decided : Sealed
decided = gate_inclusion seal_of_decision "agent" "now" (exited 0 none) artifact

with_decision-verifies :
    verify_ledger hash_of seal_of_decision "" (one_event ++ decision decided ∷ [])
    ≡ verified (some "cell")
unfolding verify_ledger check_record gate_inclusion
with_decision-verifies = refl

decided-apart : decided.receipt ≢ chain_head_of "" one_event
unfolding gate_inclusion
decided-apart h = ground (arith, (eq_iff "cell" "ea").1 h)

verify_head_unique_example : one_event ≡ one_event
verify_head_unique_example =
    verify_head_unique hash_of seal_of_decision "" "ea" hash_of-inj
      (λ a. join_texts-full a.prev_hash a.body) one_event one_event tt tt one_event-anchored
      one_event-anchored

emit_event-verifies_example :
    (core : EventCore) × (emit_event hash_of seal_of_decision "" "b" one_event
      ≡ some (one_event ++ event core (hash_of core) ∷ []))
    × (verify_ledger hash_of seal_of_decision "" (one_event ++ event core (hash_of core) ∷ [])
        ≡ verified (some (hash_of core)))
emit_event-verifies_example =
    emit_event-verifies hash_of seal_of_decision "" "b" one_event tt one_event-verifies

emit_event-breaks_after_decision_example :
    (after : List Record) × (emit_event hash_of seal_of_decision "" "b"
        (one_event ++ decision decided ∷ [])
      ≡ some after)
    × (verify_ledger hash_of seal_of_decision "" after
        ≡ broken (some (length one_event + 1)) broken_link)
emit_event-breaks_after_decision_example =
    emit_event-breaks_after_decision hash_of seal_of_decision "" "b" one_event decided
      with_decision-verifies decided-apart
