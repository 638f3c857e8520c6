-- ===== src/Gbrg/Ledger/Chain.antt =====
-- What the writers append to a verified ledger.
use socio_workspace.Base.{
  ◌+◌, ◌≡◌, ◌≢◌, refl, ap, sym, ◌∙◌, Option, some, List, [], ◌∷◌, ◌++◌, String, eq_iff, eq_refl,
  length, length-append, arith,
}
use socio_workspace.Gbrg.Gate.{Decision, Sealed, ProofArtifact, Process, gate_inclusion}
use socio_workspace.Gbrg.Ledger.{
  EventCore, Record, event, decision, undecodable, unknown, verified, broken, broken_link, Heads,
  bad, check_record, verify_ledger, first_heads, prev_hash, new_event, emit_event, last_seal_of,
  or_genesis, seal_of,
}
use socio_workspace.Gbrg.Ledger.Verify.{
  Walk, stop, step, walk_of_verified, verified_of_walk, Walk-append, broken_after_walk,
  chain_head_of, IsChain, chain_head-Walk,
}

-- In a chain the last seal is the head.
last_seal_of_chain :
    (head : String) (r : Record) (records : List Record)
    → IsChain (r ∷ records)
    → last_seal_of (r ∷ records) ≡ some (chain_head_of head (r ∷ records))
unfolding last_seal_of
last_seal_of_chain head (event core hash) [] c = refl
last_seal_of_chain head (event core hash) (q ∷ records) c = last_seal_of_chain hash q records c
last_seal_of_chain head (decision d) records c = elim c [ ]
last_seal_of_chain head (undecodable receipt) records c = elim c [ ]
last_seal_of_chain head unknown records c = elim c [ ]

prev_hash_of_chain :
    (genesis : String) (records : List Record)
    → IsChain records
    → prev_hash genesis records ≡ chain_head_of genesis records
unfolding prev_hash
prev_hash_of_chain genesis [] c = refl
prev_hash_of_chain genesis (r ∷ records) c = rw (last_seal_of_chain genesis r records c)

-- After a decision, the seal is its receipt.
last_seal_of_snoc :
    (records : List Record) (r : Record) → last_seal_of (records ++ r ∷ []) ≡ seal_of r
unfolding last_seal_of
last_seal_of_snoc [] r = refl
last_seal_of_snoc (q ∷ []) r = refl
last_seal_of_snoc (q ∷ p ∷ records) r = last_seal_of_snoc (p ∷ records) r

-- A decision leaves the head of the chain alone.
chain_head_of_snoc :
    (head : String) (records : List Record) (d : Sealed)
    → chain_head_of head (records ++ decision d ∷ []) ≡ chain_head_of head records
chain_head_of_snoc head [] d = refl
chain_head_of_snoc head (event core hash ∷ records) d = chain_head_of_snoc hash records d
chain_head_of_snoc head (decision e ∷ records) d = chain_head_of_snoc head records d
chain_head_of_snoc head (undecodable receipt ∷ records) d = chain_head_of_snoc head records d
chain_head_of_snoc head (unknown ∷ records) d = chain_head_of_snoc head records d

module _ (hash_event : EventCore → String) (seal : Decision → String) (genesis : String) where
  abbrev start : Heads
  start = first_heads hash_event seal genesis

  walk_of_ledger :
      (records : List Record) {s : Option String}
      → verify_ledger hash_event seal genesis records ≡ verified s
      → (h : Heads) × (h.last_seal ≡ s) × Walk hash_event seal h start records
  unfolding verify_ledger
  walk_of_ledger records {s} v = walk_of_verified hash_event seal 0 start records s v

  -- An event whose link is the head of a verified ledger extends it.
  event_extends :
      (records : List Record) {s : Option String} (core : EventCore)
      → verify_ledger hash_event seal genesis records ≡ verified s
      → core.prev_hash ≡ chain_head_of genesis records
      → verify_ledger hash_event seal genesis (records ++ event core (hash_event core) ∷ [])
        ≡ verified (some (hash_event core))
  unfolding verify_ledger check_record
  event_extends records core v link =
      let (h, _, w) = walk_of_ledger records v in
      let linked = link ∙ sym (chain_head-Walk hash_event seal records w) in
      let new : Heads = record {
        chain_head = hash_event core;
        last_seal = some (hash_event core);
      } in
      let one : Walk hash_event seal new h (event core (hash_event core) ∷ []) =
        step (event core (hash_event core)) [] new
          (rw ((eq_iff core.prev_hash h.chain_head).1 linked, eq_refl)) (stop refl) in
      verified_of_walk hash_event seal 0 (records ++ event core (hash_event core) ∷ [])
        (Walk-append hash_event seal records (event core (hash_event core) ∷ []) w one)

  emitted :
      (body : String) (records : List Record) {s : Option String}
      → verify_ledger hash_event seal genesis records ≡ verified s
      → emit_event hash_event seal genesis body records
        ≡ some (records ++ new_event hash_event seal genesis body records ∷ [])
  unfolding emit_event
  emitted body records v = ground arith

  -- An event emitted to a chain that verifies is appended, the longer chain verifies, and its head
  -- is the hash of the new event.
  pub emit_event-verifies :
      (body : String) (records : List Record) {s : Option String}
      → IsChain records
      → verify_ledger hash_event seal genesis records ≡ verified s
      → (core : EventCore) × (emit_event hash_event seal genesis body records
          ≡ some (records ++ event core (hash_event core) ∷ []))
        × (verify_ledger hash_event seal genesis (records ++ event core (hash_event core) ∷ [])
            ≡ verified (some (hash_event core)))
  unfolding new_event
  emit_event-verifies body records c v =
      let core : EventCore = record { prev_hash = prev_hash genesis records; body = body } in
      (
        core,
        emitted body records v,
        event_extends records core v (prev_hash_of_chain genesis records c),
      )

  -- The decision of the gate, whatever it is, extends a verified ledger to a verified one whose head
  -- is the decision's receipt.
  pub gate_inclusion-verifies :
      (agent_ref now : String) (process : Process) (a : ProofArtifact) (records : List Record)
      {s : Option String}
      → verify_ledger hash_event seal genesis records ≡ verified s
      → let d = gate_inclusion seal agent_ref now process a in
        verify_ledger hash_event seal genesis (records ++ decision d ∷ [])
        ≡ verified (some d.receipt)
  unfolding verify_ledger check_record gate_inclusion
  gate_inclusion-verifies agent_ref now process a records v =
      let d = gate_inclusion seal agent_ref now process a in
      let (h, _, w) = walk_of_ledger records v in
      let new : Heads = record h { last_seal = some d.receipt } in
      let one : Walk hash_event seal new h (decision d ∷ []) =
        step (decision d) [] new (rw eq_refl) (stop refl) in
      verified_of_walk hash_event seal 0 (records ++ decision d ∷ [])
        (Walk-append hash_event seal records (decision d ∷ []) w one)

  wrong_link :
      (h : Heads) (core : EventCore)
      → core.prev_hash ≢ h.chain_head
      → check_record hash_event seal h (event core (hash_event core)) ≡ bad broken_link
  unfolding check_record
  wrong_link h core n = ground (arith, eq_iff core.prev_hash h.chain_head)

  -- If a decision ends a ledger that verifies, and its receipt differs from the chain head, then the
  -- next event that is emitted is appended and makes the ledger fail to verify: the break is a
  -- broken link at the new event.
  pub emit_event-breaks_after_decision :
      (body : String) (records : List Record) (d : Sealed) {s : Option String}
      → verify_ledger hash_event seal genesis (records ++ decision d ∷ []) ≡ verified s
      → d.receipt ≢ chain_head_of genesis records
      → (after : List Record) × (emit_event hash_event seal genesis body
            (records ++ decision d ∷ [])
          ≡ some after)
        × (verify_ledger hash_event seal genesis after
            ≡ broken (some (length records + 1)) broken_link)
  unfolding verify_ledger new_event seal_of or_genesis
  emit_event-breaks_after_decision body records d v other =
      let before = records ++ decision d ∷ [] in
      let (h, _, w) = walk_of_ledger before v in
      let head = chain_head-Walk hash_event seal before w ∙ chain_head_of_snoc genesis records d in
      let link : prev_hash genesis before ≡ d.receipt =
        ap (or_genesis genesis) (last_seal_of_snoc records (decision d)) in
      let core : EventCore = record { prev_hash = prev_hash genesis before; body = body } in
      let fails = wrong_link h core (λ e. other (sym link ∙ e ∙ head)) in
      (
        before ++ event core (hash_event core) ∷ [],
        emitted body before v,
        broken_after_walk hash_event seal 0 before (event core (hash_event core)) broken_link w
              fails
            ∙ ap (λ k. broken (some k) broken_link)
                (omega (arith, length-append records (decision d ∷ []))),
      )
