-- ===== src/Gbrg/Ledger/Tamper.antt =====
-- A verified chain is determined by its head.
use socio_workspace.Base.{
  ◌≡◌, ◌≢◌, refl, ap, sym, ◌∙◌, subst, none, some, List, [], ◌∷◌, String, eq_iff, arith, some-inj,
}
use socio_workspace.Gbrg.Gate.{Decision}
use socio_workspace.Gbrg.Ledger.{
  EventCore, Record, event, decision, undecodable, unknown, VerifyResult, verified, broken, Heads,
  good, check_record, verify_ledger, verify_head, against_anchor, first_heads,
}
use socio_workspace.Gbrg.Ledger.Verify.{IsChain, Walk, stop, step, walk_of_verified}

module _ (hash_event : EventCore → String) (seal : Decision → String) where
  -- The cores of a chain of events that starts at `from`, the last one first: each links to the hash of the one before.
  pub data Linked (from : String) : String → List EventCore → Type 0 where
    origin : {head : String} → head ≡ from → Linked from head []
    link :
        {head : String} (core : EventCore) (cores : List EventCore)
        → head ≡ hash_event core
        → Linked from core.prev_hash cores
        → Linked from head (core ∷ cores)

  -- Under a hash without collisions that never hits the start, the head determines the chain.
  Linked-unique :
      (from : String)
      → ((a b : EventCore) → hash_event a ≡ hash_event b → a ≡ b)
      → ((a : EventCore) → hash_event a ≢ from)
      → {head head' : String} (xs ys : List EventCore) → Linked from head xs
      → Linked from head' ys
      → head ≡ head'
      → xs ≡ ys
  Linked-unique from inj fresh _ _ (origin e) (origin f) h = refl
  Linked-unique from inj fresh _ _ (origin e) (link d ds f l) h =
      absurd (fresh d (sym f ∙ sym h ∙ e))
  Linked-unique from inj fresh _ _ (link c cs e k) (origin f) h = absurd (fresh c (sym e ∙ h ∙ f))
  Linked-unique from inj fresh _ _ (link c cs e k) (link d ds f l) h =
      let same = inj c d (sym e ∙ h ∙ f) in
      cc (same, Linked-unique from inj fresh cs ds k l (ap (λ x. x.prev_hash) same))

  -- The events of a list of cores that is given last first, in the order of the file.
  abbrev pub events_onto : List EventCore → List Record → List Record
  events_onto [] records = records
  events_onto (c ∷ cores) records = events_onto cores (event c (hash_event c) ∷ records)

  -- The last seal, if there is one, is the head of the chain.
  abbrev Matches : Heads → Type 0
  Matches h = (s : String) → h.last_seal ≡ some s → h.chain_head ≡ s

  good_event :
      (h m : Heads) (core : EventCore) (hash : String)
      → check_record hash_event seal h (event core hash) ≡ good m
      → (h.chain_head ≡ core.prev_hash)
        × (hash ≡ hash_event core)
        × (m.chain_head ≡ hash)
        × (m.last_seal ≡ some hash)
  unfolding check_record
  good_event h m core hash e =
      let p = eq_iff core.prev_hash h.chain_head in
      let q = eq_iff (hash_event core) hash in
      (ground (arith, p, q), ground (arith, p, q), ground (arith, p, q), ground (arith, p, q))

  Linked-of_walk :
      (from : String) {h' : Heads} (cores : List EventCore) {h : Heads} (records : List Record)
      → IsChain records
      → Matches h
      → Linked from h.chain_head cores
      → Walk hash_event seal h' h records
      → (all : List EventCore) × Linked from h'.chain_head all
        × (events_onto cores records ≡ events_onto all [])
        × Matches h'
  Linked-of_walk from cores _ c m l (stop e) =
      (cores, subst (λ x. Linked from x.chain_head cores) e l, refl, subst Matches e m)
  Linked-of_walk from cores _ c m l (step (event core hash) records k e w) =
      let (prev, hashed, head, last) = good_event _ k core hash e in
      let longer : Linked from k.chain_head (core ∷ cores) =
        link core cores (head ∙ hashed) (subst (λ x. Linked from x cores) prev l) in
      let (all, linked, same, fits) =
        Linked-of_walk from (core ∷ cores) records c (λ s t. head ∙ some-inj hash s (sym last ∙ t))
          longer w in
      (all, linked, ap (λ x. events_onto cores (event core x ∷ records)) hashed ∙ same, fits)
  Linked-of_walk from cores _ c m l (step (decision d) records k e w) = absurd c
  Linked-of_walk from cores _ c m l (step (undecodable t) records k e w) = absurd c
  Linked-of_walk from cores _ c m l (step unknown records k e w) = absurd c

  anchored :
      (genesis expected : String) (r : VerifyResult)
      → against_anchor hash_event seal genesis expected r ≡ verified (some expected)
      → r ≡ verified (some expected)
  unfolding against_anchor
  anchored genesis expected (broken i why) e = cc
  anchored genesis expected (verified none) e = cc
  anchored genesis expected (verified (some head)) e = ground (arith, eq_iff head expected)

  chain_of_head :
      (genesis expected : String) (records : List Record)
      → IsChain records
      → verify_head hash_event seal genesis expected records ≡ verified (some expected)
      → (all : List EventCore) × Linked genesis expected all × (records ≡ events_onto all [])
  unfolding verify_head
  chain_of_head genesis expected records c v =
      let start = first_heads hash_event seal genesis in
      let (h, last, w) =
        walk_of_verified hash_event seal 0 start records (some expected)
          (anchored genesis expected (verify_ledger hash_event seal genesis records) v) in
      let (all, linked, same, fits) =
        Linked-of_walk genesis [] records c (λ s e. cc) (origin refl) w in
      (all, subst (λ x. Linked genesis x all) (fits expected last) linked, same)

  -- If the hash of events has no collisions and never gives the genesis anchor, two chains of events
  -- that both verify against one pinned head are the same, record by record.
  pub verify_head_unique :
      (genesis expected : String)
      → ((a b : EventCore) → hash_event a ≡ hash_event b → a ≡ b)
      → ((a : EventCore) → hash_event a ≢ genesis)
      → (xs ys : List Record) → IsChain xs
      → IsChain ys
      → verify_head hash_event seal genesis expected xs ≡ verified (some expected)
      → verify_head hash_event seal genesis expected ys ≡ verified (some expected)
      → xs ≡ ys
  verify_head_unique genesis expected inj fresh xs ys cx cy vx vy =
      let (cores, lx, ex) = chain_of_head genesis expected xs cx vx in
      let (cores', ly, ey) = chain_of_head genesis expected ys cy vy in
      ex
      ∙ ap (λ l. events_onto l []) (Linked-unique genesis inj fresh cores cores' lx ly refl)
      ∙ sym ey
