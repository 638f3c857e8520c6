-- ===== src/Quarantine/Closed.antt =====
-- How the entries of automation/session_quarantine.py count that left the queue.
use socio_workspace.Base.{
  ℕ, ◌≡◌, inl, inr, refl, Bool, true, false, none, some, String, Option-cases, if◌then◌else◌,
}
use socio_workspace.Quarantine.{OrphanEntry, ReceiptStatus, quarantined, recovered}
use socio_workspace.Quarantine.Held.{is_closed, is_status, closed}

-- One if the receipt of a status counts for an id.
abbrev pub counts : (String → Bool) → ReceiptStatus → ReceiptStatus → OrphanEntry → ℕ
counts t st st' entry = if is_status st st' then if t entry.event_id then 1 else 0 else 0

pub closed-pending :
    (t : String → Bool) (st : ReceiptStatus) (entry : OrphanEntry)
    → entry.reconciled ≡ false
    → closed t st entry ≡ 0
unfolding closed is_closed
closed-pending t quarantined entry h = elim (Option-cases entry.recovered_session_id) [
  | inl e ↦ rw (e, h) refl
  | inr (s, e) ↦ rw e refl
]
closed-pending t recovered entry h = elim (Option-cases entry.recovered_session_id) [
  | inl e ↦ rw e refl
  | inr (s, e) ↦ rw (e, h) refl
]

pub closed-recovered :
    (t : String → Bool) (st : ReceiptStatus) (entry : OrphanEntry) (s : String)
    → closed t st (record entry { reconciled = true; recovered_session_id = some s })
      ≡ counts t st recovered entry
unfolding closed is_closed is_status
closed-recovered t quarantined entry s = refl
closed-recovered t recovered entry s = refl

pub closed-quarantined :
    (t : String → Bool) (st : ReceiptStatus) (entry : OrphanEntry)
    → entry.recovered_session_id ≡ none
    → closed t st (record entry { reconciled = true }) ≡ counts t st quarantined entry
unfolding closed is_closed is_status
closed-quarantined t quarantined entry e = rw e refl
closed-quarantined t recovered entry e = rw e refl
