-- ===== src/Quarantine/Reconciled.antt =====
-- No event is lost in `reconcile` of automation/session_quarantine.py.
use socio_workspace.Base.{◌+◌, ◌≡◌, ap, ◌∙◌, Bool, true, map, String, arith, All}
use socio_workspace.Quarantine.{World, Event, ReceiptStatus, quarantined, Protocol, scan, reconcile}
use socio_workspace.Quarantine.Held.{events_in, held, closed_in, receipts_of}
use socio_workspace.Quarantine.Rounds.{IsOrdered, fixed, scan-Scans, expire-Expires}

-- What a reconciliation does to the protocol.
pub record Reconciles (q q' : Protocol) : Type 0 where
  pub events : (p : Event → Bool) → held p q' ≡ held p q
  pub receipts :
      (t : String → Bool) (st : ReceiptStatus)
      → receipts_of t st q'.receipts + closed_in t st q.orphan_queue
        ≡ receipts_of t st q.receipts + closed_in t st q'.orphan_queue
  pub same : map fixed q'.orphan_queue ≡ map fixed q.orphan_queue
  pub ordered : All IsOrdered q'.orphan_queue

-- If no entry that is pending has a session, then a reconciliation loses no event: for every test,
-- as many events that pass it are in sessions, pending or quarantined as before. For every test and
-- either status, the receipts of the status whose event id passes have become more by as many as the
-- entries whose id passes that left the queue in that way. The entries keep their keys, their ids,
-- their events and their times, and still none that is pending has a session.
pub reconcile-Reconciles :
    (world : World) (q : Protocol) → All IsOrdered q.orphan_queue → Reconciles q (reconcile world q)
unfolding reconcile held
reconcile-Reconciles world q h =
    let now = world.clock q.ticks in
    let begun = record q { ticks = q.ticks + 1 } in
    let scanned = scan world now q.orphan_queue begun in
    let s = λ (p : Event → Bool) (t : String → Bool) (st : ReceiptStatus).
      scan-Scans world p t st now q.orphan_queue begun h in
    let all : String → Bool = λ x. true in
    let e = λ (p : Event → Bool) (t : String → Bool) (st : ReceiptStatus).
      expire-Expires world p t st scanned.1 scanned.0 (s p t st).ordered (s p t st).waits in
    record {
      events = λ p. omega (
        arith,
        (s p all quarantined).events,
        (e p all quarantined).kept_all,
        ap (events_in p) (e p all quarantined).sessions,
      );
      receipts =
          λ t st. omega (arith, (s (λ x. true) t st).receipts, (e (λ x. true) t st).receipts);
      same = (e (λ x. true) all quarantined).same ∙ (s (λ x. true) all quarantined).same;
      ordered = (e (λ x. true) all quarantined).ordered;
    }
