-- ===== src/Tests/Quarantine.antt =====
-- Runs of automation/session_quarantine.py.
use socio_workspace.Base.{◌+◌, ◌≡◌, inr, refl, Bool, none, false, [], ◌∷◌}
use socio_workspace.Base.Dict
use socio_workspace.Quarantine.{World, Event, Protocol, new_protocol, reconcile, event_received}
use socio_workspace.Quarantine.Held.{one, held}
use socio_workspace.Quarantine.Reconciled.{Reconciles, reconcile-Reconciles}
use socio_workspace.Quarantine.Ingress.{replaced, stamped, event_received-held}

abbrev world : World
world = record { clock = λ n. 400000000; uuid = λ n. "id" }

abbrev orphan : Event
orphan = ("event_id", "e1") ∷ ("task_id", "t1") ∷ []

-- A protocol with one orphan that is too old.
abbrev waiting : Protocol
waiting = record (new_protocol 300) {
  orphan_queue =
      (
        "e1",
        record {
          event_id = "e1";
          event = orphan;
          received_at = 0;
          reconciled = false;
          recovered_session_id = none;
        },
      )
      ∷ [];
}

-- The events that name a task.
abbrev names_task : Event → Bool
names_task event = Dict.has event "task_id"

reconcile-Reconciles_example : Reconciles waiting (reconcile world waiting)
reconcile-Reconciles_example = reconcile-Reconciles world waiting (inr refl, tt)

event_received-held_example :
    held names_task (event_received world orphan waiting).0
      + replaced world names_task orphan waiting
    ≡ held names_task waiting + one names_task (stamped world orphan waiting)
event_received-held_example = event_received-held world names_task orphan waiting
