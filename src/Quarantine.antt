-- ===== src/Quarantine.antt =====
-- automation/session_quarantine.py: lifecycle events, the sessions they attach to, and the queue of
-- orphans. An event is a dict from texts to texts. Time is in microseconds. The clock and `uuid4`
-- are parameters, functions of the number of times that they were read; the logger is left out.
pub mod Held
pub mod Young
pub mod Closed
pub mod Rounds
pub mod Reconciled
pub mod Ingress
use socio_workspace.Base.{
  ℕ, zero, suc, ◌+◌, ◌*◌, Bool, true, false, not, ◌&&◌, Option, none, some, List, [], ◌∷◌, ◌++◌,
  map, String, str_eq, leb, any, if◌then◌else◌,
}
use socio_workspace.Base.Dict
use socio_workspace.Base.Dict.{Dict}

abbrev pub Event : Type 0
Event = Dict String

pub record World : Type 0 where
  pub clock : ℕ → ℕ
  pub uuid : ℕ → String

pub record SessionDagNode : Type 0 where
  pub events : List Event
  pub created_at : ℕ

pub record OrphanEntry : Type 0 where
  pub event_id : String
  pub event : Event
  pub received_at : ℕ
  pub reconciled : Bool
  pub recovered_session_id : Option String

pub data ReceiptStatus : Type 0 where
  quarantined recovered : ReceiptStatus

-- The hint of the reference is "kind=value".
pub record EvidenceRef : Type 0 where
  pub ref_id : String
  pub event_id : String
  pub kind : String
  pub value : String

pub record OrphanEventReceipt : Type 0 where
  pub receipt_id : String
  pub event_id : String
  pub status : ReceiptStatus
  pub quarantined_at : ℕ
  pub ttl_seconds : ℕ
  pub reconciliation_attempts : ℕ
  pub evidence_refs : List EvidenceRef
  pub recovered_session_id : Option String

-- The protocol object, with the numbers of clock readings and of ids so far.
pub record Protocol : Type 0 where
  pub ttl_seconds : ℕ
  pub sessions : Dict SessionDagNode
  pub orphan_queue : Dict OrphanEntry
  pub receipts : List OrphanEventReceipt
  pub reconcile_counts : Dict ℕ
  pub ticks : ℕ
  pub ids : ℕ

abbrev pub reconcile_keys : List String
reconcile_keys = "conversation_id" ∷ "parent_id" ∷ "workspace_id" ∷ "task_id" ∷ []

abbrev pub new_protocol : ℕ → Protocol
new_protocol ttl = record {
  ttl_seconds = ttl;
  sessions = [];
  orphan_queue = [];
  receipts = [];
  reconcile_counts = [];
  ticks = 0;
  ids = 0;
}

-- d.get(k, "")
unfoldable pub text_at : Event → String → String
text_at event k = elim (Dict.get event k) [ none ↦ "" | some v ↦ v ]

unfoldable pub attempts : Dict ℕ → String → ℕ
attempts d k = elim (Dict.get d k) [ none ↦ 0 | some n ↦ n ]

unfoldable pub register_session : World → String → Protocol → Protocol
register_session world session_id q = if Dict.has q.sessions session_id then q else record q {
  sessions =
      Dict.put q.sessions session_id (record { events = []; created_at = world.clock q.ticks });
  ticks = q.ticks + 1;
}

-- `_attach_to_session`; the callers have found the session.
unfoldable pub append_event : Event → String → Dict SessionDagNode → Dict SessionDagNode
append_event event session_id [] = []
append_event event session_id ((k, node) ∷ d) =
    if str_eq k session_id
    then (k, record node { events = node.events ++ event ∷ [] }) ∷ d
    else (k, node) ∷ append_event event session_id d

unfoldable pub attach_to_session : String → Event → Protocol → Protocol
unfolding append_event
attach_to_session session_id event q = record q {
  sessions = append_event event session_id q.sessions;
}

unfoldable pub enqueue_orphan : World → String → Event → Protocol → Protocol
enqueue_orphan world event_id event q = record q {
  orphan_queue = Dict.put q.orphan_queue event_id (record {
    event_id = event_id;
    event = event;
    received_at = world.clock q.ticks;
    reconciled = false;
    recovered_session_id = none;
  });
  ticks = q.ticks + 1;
}

-- The event's id, or a new one if it has none.
unfoldable pub identify : World → Event → Protocol → String × Protocol
unfolding text_at
identify world event q =
    if str_eq (text_at event "event_id") ""
    then (world.uuid q.ids, record q { ids = q.ids + 1 })
    else (text_at event "event_id", q)

unfoldable pub with_id : Event → String → Event
with_id event event_id =
    if Dict.has event "event_id" then event else Dict.put event "event_id" event_id

pub data Received : Type 0 where
  attached orphaned : Received

unfoldable pub is_known : Event → Protocol → Bool
unfolding text_at
is_known event q =
    let session_id = text_at event "session_id" in
    not (str_eq session_id "") && Dict.has q.sessions session_id

unfoldable pub event_received : World → Event → Protocol → Protocol × Received
unfolding is_known identify with_id attach_to_session enqueue_orphan
event_received world event q =
    let (event_id, q') = identify world event q in
    let stamped = with_id event event_id in
    if is_known event q
    then (attach_to_session (text_at event "session_id") stamped q', attached)
    else (enqueue_orphan world event_id stamped q', orphaned)

unfoldable pub shares : String → String → Event → Bool
shares key value event = elim (Dict.get event key) [ none ↦ false | some v ↦ str_eq v value ]

-- The loop over the sessions, for one key.
unfoldable pub find_by : String → String → Dict SessionDagNode → Option String
unfolding shares
find_by key value [] = none
find_by key value ((session_id, node) ∷ d) =
    if any (shares key value) node.events then some session_id else find_by key value d

unfoldable pub find_matching_session : List String → Event → Dict SessionDagNode → Option String
unfolding text_at find_by
find_matching_session [] event d = none
find_matching_session (key ∷ keys) event d =
    let later = find_matching_session keys event d in
    if str_eq (text_at event key) ""
    then later
    else elim (find_by key (text_at event key) d) [ none ↦ later | some s ↦ some s ]

unfoldable pub build_evidence_refs : World → List String → OrphanEntry → ℕ → ℕ × List EvidenceRef
unfolding text_at
build_evidence_refs world [] entry ids = (ids, [])
build_evidence_refs world (key ∷ keys) entry ids =
    let value = text_at entry.event key in
    let (skipped, without) = build_evidence_refs world keys entry ids in
    let (drawn, refs) = build_evidence_refs world keys entry (ids + 1) in
    if str_eq value "" then (skipped, without) else (
      drawn,
      record { ref_id = world.uuid ids; event_id = entry.event_id; kind = key; value = value }
          ∷ refs,
    )

unfoldable pub emit_receipt : World → OrphanEntry → ReceiptStatus → Protocol → Protocol
unfolding build_evidence_refs attempts
emit_receipt world entry status q =
    let (ids, refs) = build_evidence_refs world reconcile_keys entry q.ids in
    record q {
      receipts =
          q.receipts
          ++ record {
            receipt_id = world.uuid ids;
            event_id = entry.event_id;
            status = status;
            quarantined_at = world.clock q.ticks;
            ttl_seconds = q.ttl_seconds;
            reconciliation_attempts = attempts q.reconcile_counts entry.event_id;
            evidence_refs = refs;
            recovered_session_id = entry.recovered_session_id;
          }
            ∷ [];
      ids = ids + 1;
      ticks = q.ticks + 1;
    }

-- `received_at` is at least the TTL ago.
unfoldable pub is_late : ℕ → ℕ → OrphanEntry → Bool
is_late now ttl entry = leb (entry.received_at + ttl * 1000000) now

-- The session that `if matched_session` lets through: an empty id does not count.
unfoldable pub truthy : Option String → Option String
truthy none = none
truthy (some s) = if str_eq s "" then none else some s

unfoldable pub recover : World → String → OrphanEntry → Protocol → Protocol × OrphanEntry
unfolding attach_to_session emit_receipt
recover world session_id entry q =
    let entry' = record entry { reconciled = true; recovered_session_id = some session_id } in
    (emit_receipt world entry' recovered (attach_to_session session_id entry.event q), entry')

unfoldable pub count_attempt : OrphanEntry → Protocol → Protocol
unfolding attempts
count_attempt entry q = record q {
  reconcile_counts =
      Dict.put q.reconcile_counts entry.event_id (attempts q.reconcile_counts entry.event_id + 1);
}

-- The body of the first loop of `reconcile`. The last result tells whether the entry joins
-- `to_quarantine`.
unfoldable pub visit : World → ℕ → OrphanEntry → Protocol → Protocol × OrphanEntry × Bool
unfolding recover count_attempt find_matching_session truthy is_late
visit world now entry q =
    let counted = count_attempt entry q in
    if entry.reconciled
    then (q, entry, false)
    else elim (truthy (find_matching_session reconcile_keys entry.event q.sessions)) [
      | none ↦ (counted, entry, is_late now q.ttl_seconds entry)
      | some session_id ↦
          let (q', entry') = recover world session_id entry counted in (q', entry', false)
    ]

-- The loop. `to_quarantine` holds entries of the queue: it is a mark on them.
unfoldable pub scan :
    World → ℕ → Dict OrphanEntry → Protocol → Protocol × List (String × OrphanEntry × Bool)
unfolding visit
scan world now [] q = (q, [])
scan world now ((k, entry) ∷ queue) q =
    let (q', entry', late) = visit world now entry q in
    let (q'', marked) = scan world now queue q' in (q'', (k, entry', late) ∷ marked)

unfoldable pub quarantine : World → OrphanEntry → Protocol → Protocol × OrphanEntry
unfolding emit_receipt
quarantine world entry q =
    let entry' = record entry { reconciled = true } in
    (emit_receipt world entry' quarantined q, entry')

-- The second loop.
unfoldable pub expire :
    World → List (String × OrphanEntry × Bool) → Protocol → Protocol × Dict OrphanEntry
unfolding quarantine
expire world [] q = (q, [])
expire world ((k, entry, false) ∷ marked) q =
    let (q', queue) = expire world marked q in (q', (k, entry) ∷ queue)
expire world ((k, entry, true) ∷ marked) q =
    let (q', entry') = quarantine world entry q in
    let (q'', queue) = expire world marked q' in (q'', (k, entry') ∷ queue)

unfoldable pub reconcile : World → Protocol → Protocol
unfolding scan expire
reconcile world q =
    let now = world.clock q.ticks in
    let (q', marked) = scan world now q.orphan_queue (record q { ticks = q.ticks + 1 }) in
    let (q'', queue) = expire world marked q' in record q'' { orphan_queue = queue }

-- `get_orphan_queue`
unfoldable pub get_orphan_queue : Dict OrphanEntry → List OrphanEntry
get_orphan_queue [] = []
get_orphan_queue ((k, entry) ∷ queue) =
    if entry.reconciled then get_orphan_queue queue else entry ∷ get_orphan_queue queue
