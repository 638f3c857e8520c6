-- ===== src/Quarantine/Rounds.antt =====
-- What the two loops of `reconcile` of automation/session_quarantine.py keep.
use socio_workspace.Base.{
  ℕ, ◌+◌, ◌≡◌, ◌⊎◌, inl, inr, refl, Bool, true, false, none, some, List, [], ◌∷◌, map, String,
  arith, Bool-cases, Option-cases, All,
}
use socio_workspace.Base.Dict
use socio_workspace.Base.Dict.{Dict}
use socio_workspace.Quarantine.{
  World, Event, OrphanEntry, ReceiptStatus, quarantined, recovered, Protocol, visit, scan, expire,
  recover, quarantine, emit_receipt, count_attempt, truthy, find_matching_session, reconcile_keys,
  attach_to_session,
}
use socio_workspace.Quarantine.Held.{
  one, events_in, kept, kept_in, append_event-adds, closed, closed_in, receipts_of,
  emit_receipt-adds, has-find, truthy-some,
}
use socio_workspace.Quarantine.Closed.{closed-pending, closed-recovered, closed-quarantined}

-- An entry has a session only after its reconciliation.
abbrev pub IsOrdered : String × OrphanEntry → Type 0
IsOrdered (k, entry) = (entry.reconciled ≡ true) ⊎ (entry.recovered_session_id ≡ none)

-- What a reconciliation may not change of an entry: its key, its id, its event and its time.
abbrev pub fixed : String × OrphanEntry → String × String × Event × ℕ
fixed (k, entry) = (k, entry.event_id, entry.event, entry.received_at)

abbrev pub Marked : Type 0
Marked = String × OrphanEntry × Bool

abbrev pub entry_of : Marked → String × OrphanEntry
entry_of (k, entry, late) = (k, entry)

-- An entry that is to be quarantined is pending.
abbrev pub Waits : Marked → Type 0
Waits (k, entry, late) = (late ≡ false) ⊎ (entry.reconciled ≡ false)

cons_eq : {A : Type 0} {x y : A} {xs ys : List A} → x ≡ y → xs ≡ ys → x ∷ xs ≡ y ∷ ys
cons_eq e h = rw (e, h) refl

module _ (world : World) (p : Event → Bool) (t : String → Bool) (st : ReceiptStatus) where
  -- What one round keeps.
  record Keeps (q : Protocol) (k : String) (entry : OrphanEntry) (q' : Protocol)
      (entry' : OrphanEntry) (late : Bool) : Type 0 where
    events : events_in p q'.sessions + kept p entry' ≡ events_in p q.sessions + kept p entry
    receipts :
        receipts_of t st q'.receipts + closed t st entry
        ≡ receipts_of t st q.receipts + closed t st entry'
    same : fixed (k, entry') ≡ fixed (k, entry)
    ordered : IsOrdered (k, entry')
    waits : Waits (k, entry', late)

  recover-Keeps :
      (s k : String) (entry : OrphanEntry) (q : Protocol)
      → entry.reconciled ≡ false
      → entry.recovered_session_id ≡ none
      → Dict.has q.sessions s ≡ true
      → Keeps q k entry
          (recover world s entry (count_attempt entry q)).0
          (recover world s entry (count_attempt entry q)).1
          false
  unfolding recover count_attempt attach_to_session kept emit_receipt
  recover-Keeps s k entry q here alone known =
      let entry' = record entry { reconciled = true; recovered_session_id = some s } in
      let q1 = attach_to_session s entry.event (count_attempt entry q) in
      let before : kept p entry ≡ one p entry.event = rw alone refl in
      let more = append_event-adds p entry.event s q.sessions known in
      record {
        events = omega (arith, before, more);
        receipts = omega (
          arith,
          closed-pending t st entry here,
          emit_receipt-adds t st world entry' recovered q1,
          closed-recovered t st entry s,
        );
        same = refl;
        ordered = inl refl;
        waits = inl refl;
      }

  visit-Keeps :
      (now : ℕ) (k : String) (entry : OrphanEntry) (q : Protocol)
      → IsOrdered (k, entry)
      → Keeps q k entry
          (visit world now entry q).0
          (visit world now entry q).1
          (visit world now entry q).2
  unfolding visit count_attempt
  visit-Keeps now k entry q ordered = elim (Bool-cases entry.reconciled) [
    | inl gone ↦ rw gone (record {
      events = refl;
      receipts = refl;
      same = refl;
      ordered = inl refl;
      waits = inl refl;
    })
    | inr here ↦
        let alone : entry.recovered_session_id ≡ none = elim ordered [
          | inl gone ↦ absurd (ground (arith, here, gone))
          | inr e ↦ e
        ] in
        elim (Option-cases (truthy (find_matching_session reconcile_keys entry.event q.sessions))) [
          | inl none_found ↦
              simp (here, none_found)
                (record {
                  events = refl;
                  receipts = refl;
                  same = refl;
                  ordered = inr alone;
                  waits = inr here;
                })
          | inr (s, found) ↦
              simp (here, found)
                (recover-Keeps s k entry q here alone
                  (has-find reconcile_keys entry.event s q.sessions (truthy-some _ s found)))
        ]
  ]

  pub kept_of : List Marked → ℕ
  kept_of [] = 0
  kept_of ((k, entry, late) ∷ marked) = kept p entry + kept_of marked

  pub closed_of : List Marked → ℕ
  closed_of [] = 0
  closed_of ((k, entry, late) ∷ marked) = closed t st entry + closed_of marked

  -- What a whole loop keeps, from a queue to the marked entries.
  pub record Scans (q : Protocol) (queue : Dict OrphanEntry) (q' : Protocol) (marked : List Marked)
      : Type 0 where
    pub events : events_in p q'.sessions + kept_of marked ≡ events_in p q.sessions + kept_in p queue
    pub receipts :
        receipts_of t st q'.receipts + closed_in t st queue
        ≡ receipts_of t st q.receipts + closed_of marked
    pub same : map fixed (map entry_of marked) ≡ map fixed queue
    pub ordered : All IsOrdered (map entry_of marked)
    pub waits : All Waits marked

  pub scan-Scans :
      (now : ℕ) (queue : Dict OrphanEntry) (q : Protocol)
      → All IsOrdered queue
      → Scans q queue (scan world now queue q).0 (scan world now queue q).1
  unfolding scan kept_of closed_of kept_in closed_in
  scan-Scans now [] q h = record {
    events = refl;
    receipts = refl;
    same = refl;
    ordered = tt;
    waits = tt;
  }
  scan-Scans now ((k, entry) ∷ queue) q h =
      let q' = (visit world now entry q).0 in
      let v = visit-Keeps now k entry q h.0 in
      let r = scan-Scans now queue q' h.1 in
      record {
        events = omega (arith, v.events, r.events);
        receipts = omega (arith, v.receipts, r.receipts);
        same = cons_eq v.same r.same;
        ordered = (v.ordered, r.ordered);
        waits = (v.waits, r.waits);
      }

  kept-of_record :
      (entry : OrphanEntry) → kept p (record entry { reconciled = true }) ≡ kept p entry
  unfolding kept
  kept-of_record entry = refl

  -- What the second loop keeps.
  pub record Expires (q : Protocol) (marked : List Marked) (q' : Protocol)
      (queue : Dict OrphanEntry) : Type 0 where
    pub sessions : q'.sessions ≡ q.sessions
    pub kept_all : kept_in p queue ≡ kept_of marked
    pub receipts :
        receipts_of t st q'.receipts + closed_of marked
        ≡ receipts_of t st q.receipts + closed_in t st queue
    pub same : map fixed queue ≡ map fixed (map entry_of marked)
    pub ordered : All IsOrdered queue

  pub expire-Expires :
      (marked : List Marked) (q : Protocol)
      → All IsOrdered (map entry_of marked)
      → All Waits marked
      → Expires q marked (expire world marked q).0 (expire world marked q).1
  unfolding expire quarantine kept_of closed_of kept_in closed_in emit_receipt
  expire-Expires [] q o h = record {
    sessions = refl;
    kept_all = refl;
    receipts = refl;
    same = refl;
    ordered = tt;
  }
  expire-Expires ((k, entry, false) ∷ marked) q o h =
      let r = expire-Expires marked q o.1 h.1 in
      record {
        sessions = r.sessions;
        kept_all = omega (arith, r.kept_all);
        receipts = omega (arith, r.receipts);
        same = cons_eq refl r.same;
        ordered = (o.0, r.ordered);
      }
  expire-Expires ((k, entry, true) ∷ marked) q o h =
      let entry' = record entry { reconciled = true } in
      let q' = emit_receipt world entry' quarantined q in
      let r = expire-Expires marked q' o.1 h.1 in
      let waiting : entry.reconciled ≡ false = elim h.0 [
        | inl x ↦ absurd (ground arith)
        | inr w ↦ w
      ] in
      let alone : entry.recovered_session_id ≡ none = elim o.0 [
        | inl gone ↦ absurd (ground (arith, waiting, gone))
        | inr e ↦ e
      ] in
      record {
        sessions = r.sessions;
        kept_all = omega (arith, r.kept_all, kept-of_record entry);
        receipts = omega (
          arith,
          r.receipts,
          closed-pending t st entry waiting,
          closed-quarantined t st entry alone,
          emit_receipt-adds t st world entry' quarantined q,
        );
        same = cons_eq refl r.same;
        ordered = (inl refl, r.ordered);
      }
