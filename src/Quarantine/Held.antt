-- ===== src/Quarantine/Held.antt =====
-- What is held by the protocol of automation/session_quarantine.py: the events in sessions and in the
-- queue that pass a test, and the entries and receipts of an id.
use socio_workspace.Base.{
  ℕ, ◌+◌, ◌≡◌, inl, inr, true, Option, none, some, List, [], ◌∷◌, ◌++◌, String, str_eq, eq_iff,
  eq_refl, Bool, false, arith, any, if◌then◌else◌, Bool-cases,
}
use socio_workspace.Base.Dict
use socio_workspace.Base.Dict.{Dict}
use socio_workspace.Quarantine.{
  World, Event, OrphanEntry, OrphanEventReceipt, SessionDagNode, ReceiptStatus, quarantined,
  recovered, Protocol, emit_receipt, truthy, find_by, find_matching_session, append_event, text_at,
  shares,
}

module _ (p : Event → Bool) where
  -- One if the event passes the test.
  abbrev pub one : Event → ℕ
  one event = if p event then 1 else 0

  unfoldable pub number : List Event → ℕ
  number [] = 0
  number (event ∷ events) = one event + number events

  unfoldable pub events_in : Dict SessionDagNode → ℕ
  events_in [] = 0
  events_in ((k, node) ∷ d) = number node.events + events_in d

  -- The event of an entry that did not go to a session: it is pending or quarantined.
  unfoldable pub kept : OrphanEntry → ℕ
  kept entry = elim entry.recovered_session_id [ none ↦ one entry.event | some s ↦ 0 ]

  unfoldable pub kept_in : Dict OrphanEntry → ℕ
  kept_in [] = 0
  kept_in ((k, entry) ∷ queue) = kept entry + kept_in queue

  -- The events that pass the test and that the protocol holds: in a session, pending or quarantined.
  unfoldable pub held : Protocol → ℕ
  held q = events_in q.sessions + kept_in q.orphan_queue

  number-append : (xs ys : List Event) → number (xs ++ ys) ≡ number xs + number ys
  unfolding number
  number-append [] ys = omega arith
  number-append (x ∷ xs) ys = omega (arith, number-append xs ys)

  pub append_event-adds :
      (event : Event) (s : String) (d : Dict SessionDagNode)
      → Dict.has d s ≡ true
      → events_in (append_event event s d) ≡ one event + events_in d
  unfolding append_event events_in number Dict.has
  append_event-adds event s [] h = absurd (ground arith)
  append_event-adds event s ((k, node) ∷ d) h = elim (Bool-cases (str_eq k s)) [
    | inl same ↦ rw same (omega (arith, number-append node.events (event ∷ [])))
    | inr other ↦ rw other (omega (arith, append_event-adds event s d (ground (arith, other, h))))
  ]

-- Whether the entry left the queue in the way of the status.
unfoldable pub is_closed : ReceiptStatus → OrphanEntry → Bool
is_closed quarantined entry = elim entry.recovered_session_id [
  | none ↦ entry.reconciled
  | some s ↦ false
]
is_closed recovered entry = elim entry.recovered_session_id [
  | none ↦ false
  | some s ↦ entry.reconciled
]

unfoldable pub is_status : ReceiptStatus → ReceiptStatus → Bool
is_status quarantined quarantined = true
is_status quarantined recovered = false
is_status recovered quarantined = false
is_status recovered recovered = true

module _ (t : String → Bool) (st : ReceiptStatus) where
  -- One if the entry left the queue in this way, and its id passes the test.
  unfoldable pub closed : OrphanEntry → ℕ
  closed entry = if is_closed st entry then if t entry.event_id then 1 else 0 else 0

  unfoldable pub closed_in : Dict OrphanEntry → ℕ
  closed_in [] = 0
  closed_in ((k, entry) ∷ queue) = closed entry + closed_in queue

  -- The receipts of the status whose id passes the test.
  unfoldable pub receipts_of : List OrphanEventReceipt → ℕ
  receipts_of [] = 0
  receipts_of (r ∷ receipts) =
      (if is_status st r.status then if t r.event_id then 1 else 0 else 0) + receipts_of receipts

  receipts_of-append :
      (xs ys : List OrphanEventReceipt) → receipts_of (xs ++ ys) ≡ receipts_of xs + receipts_of ys
  unfolding receipts_of
  receipts_of-append [] ys = omega arith
  receipts_of-append (r ∷ xs) ys = omega (arith, receipts_of-append xs ys)

  pub emit_receipt-adds :
      (world : World) (entry : OrphanEntry) (st' : ReceiptStatus) (q : Protocol)
      → receipts_of (emit_receipt world entry st' q).receipts
        ≡ receipts_of q.receipts
          + (if is_status st st' then if t entry.event_id then 1 else 0 else 0)
  unfolding emit_receipt receipts_of
  emit_receipt-adds world entry st' q = omega (arith, receipts_of-append q.receipts _)

has-find_by :
    (key value s : String) (d : Dict SessionDagNode)
    → find_by key value d ≡ some s
    → Dict.has d s ≡ true
unfolding find_by Dict.has
has-find_by key value s [] h = absurd (ground arith)
has-find_by key value s ((k, node) ∷ d) h = elim (Bool-cases (any (shares key value) node.events)) [
  | inl hit ↦ ground (arith, hit, h, eq_refl s, eq_iff k s)
  | inr miss ↦ ground (arith, miss, h, has-find_by key value s d)
]

pub has-find :
    (keys : List String) (event : Event) (s : String) (d : Dict SessionDagNode)
    → find_matching_session keys event d ≡ some s
    → Dict.has d s ≡ true
unfolding find_matching_session
has-find [] event s d h = absurd (ground arith)
has-find (key ∷ keys) event s d h =
    ground (arith, h, has-find keys event s d, has-find_by key (text_at event key) s d)

pub truthy-some : (o : Option String) (s : String) → truthy o ≡ some s → o ≡ some s
unfolding truthy
truthy-some none s h = h
truthy-some (some t) s h = ground (arith, h)
