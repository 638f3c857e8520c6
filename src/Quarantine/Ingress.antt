-- ===== src/Quarantine/Ingress.antt =====
-- When an event is lost in `event_received` of automation/session_quarantine.py.
use socio_workspace.Base.{
  ℕ, ◌+◌, ◌≡◌, inl, inr, refl, ap, Bool, true, false, none, some, [], ◌∷◌, String, str_eq, arith,
  if◌then◌else◌, Bool-cases,
}
use socio_workspace.Base.Dict
use socio_workspace.Base.Dict.{Dict}
use socio_workspace.Quarantine.{
  World, Event, OrphanEntry, Protocol, attach_to_session, event_received, is_known, identify,
  with_id, enqueue_orphan, text_at,
}
use socio_workspace.Quarantine.Held.{one, kept, kept_in, held, append_event-adds}

text_at-absent : (event : Event) (k : String) → Dict.has event k ≡ false → text_at event k ≡ ""
unfolding text_at
text_at-absent event k h = rw (Dict.get-absent event k h, text_at) refl

module _ (world : World) where
  -- The event as it arrived, or with a new id if it has no such key.
  unfoldable pub stamped : Event → Protocol → Event
  stamped event q =
      if Dict.has event "event_id" then event else Dict.put event "event_id" (world.uuid q.ids)

  identify-fresh :
      (event : Event) (q : Protocol)
      → text_at event "event_id" ≡ ""
      → (identify world event q).0 ≡ world.uuid q.ids
  unfolding identify
  identify-fresh event q h = rw h refl

  with_id-identify :
      (event : Event) (q : Protocol) → with_id event (identify world event q).0 ≡ stamped event q
  unfolding with_id stamped
  with_id-identify event q = elim (Bool-cases (Dict.has event "event_id")) [
    | inl there ↦ rw there refl
    | inr missing ↦ rw missing (
        ap (Dict.put event "event_id")
          (identify-fresh event q (text_at-absent event "event_id" missing)))
  ]

module _ (world : World) (p : Event → Bool) where
  -- An event becomes an orphan under the id of one that is pending or quarantined: one if that
  -- one's event passes the test, and zero otherwise.
  unfoldable pub replaced : Event → Protocol → ℕ
  unfolding is_known identify
  replaced event q =
      if is_known event q then 0 else elim (Dict.get q.orphan_queue (identify world event q).0) [
        | none ↦ 0
        | some old ↦ kept p old
      ]

  put-kept_in :
      (d : Dict OrphanEntry) (k : String) (entry : OrphanEntry)
      → kept_in p (Dict.put d k entry) + (elim (Dict.get d k) [ none ↦ 0 | some old ↦ kept p old ])
        ≡ kept_in p d + kept p entry
  unfolding kept_in Dict.put Dict.get
  put-kept_in [] k entry = omega arith
  put-kept_in ((j, old) ∷ d) k entry = elim (Bool-cases (str_eq j k)) [
    | inl hit ↦ rw hit (omega arith)
    | inr miss ↦ rw miss (omega (arith, put-kept_in d k entry))
  ]

  enqueue_held :
      (id : String) (event : Event) (q : Protocol)
      → held p (enqueue_orphan world id event q)
          + (elim (Dict.get q.orphan_queue id) [ none ↦ 0 | some old ↦ kept p old ])
        ≡ held p q + one p event
  unfolding held enqueue_orphan kept
  enqueue_held id event q =
      let entry : OrphanEntry = record {
        event_id = id;
        event = event;
        received_at = world.clock q.ticks;
        reconciled = false;
        recovered_session_id = none;
      } in
      let put = put-kept_in q.orphan_queue id entry in omega (arith, put)

  attach_held :
      (s : String) (event : Event) (q : Protocol)
      → Dict.has q.sessions s ≡ true
      → held p (attach_to_session s event q) ≡ held p q + one p event
  unfolding held attach_to_session
  attach_held s event q h = omega (arith, append_event-adds p event s q.sessions h)

  known-has :
      (event : Event) (q : Protocol)
      → is_known event q ≡ true
      → Dict.has q.sessions (text_at event "session_id") ≡ true
  unfolding is_known
  known-has event q h = ground (arith, h)

-- For every test: after an event arrived, as many events that pass are in sessions, pending or
-- quarantined as before, and one more if the event with its id passes; except that an orphan whose
-- id is that of an entry that is pending or quarantined takes the place of that one, whose event is
-- then lost.
pub event_received-held :
    (world : World) (p : Event → Bool) (event : Event) (q : Protocol)
    → held p (event_received world event q).0 + replaced world p event q
      ≡ held p q + one p (stamped world event q)
unfolding event_received replaced held
event_received-held world p event q =
    rw (← with_id-identify world event q) (elim (Bool-cases (is_known event q)) [
      | inl known ↦ elim (Bool-cases (str_eq (text_at event "event_id") "")) [
        | inl fresh ↦
            simp (known, fresh)
              (omega (
                arith,
                attach_held world p (text_at event "session_id") (with_id event (world.uuid q.ids))
                    (record q { ids = q.ids + 1 }) (known-has world p event q known),
              ))
        | inr given ↦
            simp (known, given)
              (omega (
                arith,
                attach_held world p (text_at event "session_id")
                    (with_id event (text_at event "event_id")) q (known-has world p event q known),
              ))
      ]
      | inr unknown ↦ elim (Bool-cases (str_eq (text_at event "event_id") "")) [
        | inl fresh ↦
            simp (unknown, fresh)
              (enqueue_held world p (world.uuid q.ids) (with_id event (world.uuid q.ids))
                (record q { ids = q.ids + 1 }))
        | inr given ↦
            simp (unknown, given)
              (enqueue_held world p (text_at event "event_id")
                (with_id event (text_at event "event_id")) q)
      ]
    ])
