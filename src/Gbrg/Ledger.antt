-- ===== src/Gbrg/Ledger.antt =====
-- gbrg/governance/ledger.py, and the writer `emit_event` of gbrg/mcp/mcp_gate.py.
-- The file is the list of its records. A record is a chained event (it has `hash` and `prev_hash`),
-- a decision (it has a `receipt`; one with a missing field raises a KeyError when its receipt is
-- recomputed), or neither. SHA-256 over canonical JSON enters as two functions: `hash_event` over all
-- of an event but its hash, and `seal` over the core of a decision.
pub mod Chain
pub mod Verify
pub mod Tamper
use socio_workspace.Base.{
  ℕ, ◌+◌, ◌==◌, Bool, true, false, Option, none, some, List, [], ◌∷◌, ◌++◌, String, str_eq, length,
  if◌then◌else◌,
}
use socio_workspace.Gbrg.Gate.{Decision, Sealed}

-- All of an event but its hash: the predecessor's hash, and the canonical text of the other fields.
pub record EventCore : Type 0 where
  pub prev_hash : String
  pub body : String

pub data Record : Type 0 where
  event : EventCore → String → Record
  decision : Sealed → Record
  undecodable : String → Record
  unknown : Record

pub data Break : Type 0 where
  broken_link bad_hash undecodable_decision bad_receipt unknown_type head_mismatch : Break

-- `VerifyResult`: the last seal, or the index of the first break (none for the anchor) with its
-- reason.
pub data VerifyResult : Type 0 where
  verified : Option String → VerifyResult
  broken : Option ℕ → Break → VerifyResult

-- What the loop of `verify_ledger` carries: the running head of the chain and the last seal.
pub record Heads : Type 0 where
  pub chain_head : String
  pub last_seal : Option String

pub data Checked : Type 0 where
  good : Heads → Checked
  bad : Break → Checked

-- The seal that `iter_receipts` and `_prev_hash` read off a verified record.
unfoldable pub seal_of : Record → Option String
seal_of (event core hash) = some hash
seal_of (decision d) = some d.receipt
seal_of (undecodable receipt) = some receipt
seal_of unknown = none

-- The seal of the last record.
unfoldable pub last_seal_of : List Record → Option String
unfolding seal_of
last_seal_of [] = none
last_seal_of (r ∷ []) = seal_of r
last_seal_of (_ ∷ r ∷ records) = last_seal_of (r ∷ records)

unfoldable pub or_genesis : String → Option String → String
or_genesis genesis none = genesis
or_genesis genesis (some s) = s

-- `_prev_hash` of mcp_gate.py on the records that were read.
unfoldable pub prev_hash : String → List Record → String
unfolding last_seal_of or_genesis
prev_hash genesis records = or_genesis genesis (last_seal_of records)

module _ (hash_event : EventCore → String) (seal : Decision → String) where
  -- The body of the loop.
  unfoldable pub check_record : Heads → Record → Checked
  check_record h (event core hash) =
      if str_eq core.prev_hash h.chain_head
      then if str_eq (hash_event core) hash
        then good (record { chain_head = hash; last_seal = some hash })
        else bad bad_hash
      else bad broken_link
  check_record h (decision d) =
      if str_eq (seal d.core) d.receipt
      then good (record h { last_seal = some d.receipt })
      else bad bad_receipt
  check_record h (undecodable receipt) = bad undecodable_decision
  check_record h unknown = bad unknown_type

  unfoldable pub and_then : ℕ → Checked → (Heads → VerifyResult) → VerifyResult
  and_then i (good h) next = next h
  and_then i (bad why) next = broken (some i) why

  -- The loop from record `i` on.
  unfoldable pub verify_from : ℕ → Heads → List Record → VerifyResult
  unfolding and_then
  verify_from i h [] = verified h.last_seal
  verify_from i h (r ∷ records) =
      and_then i (check_record h r) (λ h'. verify_from (i + 1) h' records)

  module _ (genesis : String) where
    abbrev pub first_heads : Heads
    first_heads = record { chain_head = genesis; last_seal = none }

    unfoldable pub verify_ledger : List Record → VerifyResult
    unfolding verify_from
    verify_ledger records = verify_from 0 first_heads records

    -- `result.head != expected_head`
    unfoldable pub against_anchor : String → VerifyResult → VerifyResult
    against_anchor expected (broken i why) = broken i why
    against_anchor expected (verified none) = broken none head_mismatch
    against_anchor expected (verified (some head)) =
        if str_eq head expected then verified (some head) else broken none head_mismatch

    unfoldable pub verify_head : String → List Record → VerifyResult
    unfolding verify_ledger against_anchor
    verify_head expected records = against_anchor expected (verify_ledger records)

    -- `read_verified`, where `none` is the `LedgerTamperError`.
    unfoldable pub read_verified : List Record → Option (List Record)
    unfolding verify_ledger
    read_verified records = elim (verify_ledger records) [
      | verified head ↦ some records
      | broken i why ↦ none
    ]

    unfoldable pub new_event : String → List Record → Record
    unfolding prev_hash
    new_event body records =
        let core : EventCore = record { prev_hash = prev_hash genesis records; body = body } in
        event core (hash_event core)

    -- `emit_event`: the ledger with the new event, or the `LedgerTamperError` of the read.
    unfoldable pub emit_event : String → List Record → Option (List Record)
    unfolding read_verified new_event
    emit_event body records = elim (read_verified records) [
      | none ↦ none
      | some found ↦ some (records ++ new_event body found ∷ [])
    ]
