-- ===== src/Quarantine/Young.antt =====
-- The queue after `reconcile` of automation/session_quarantine.py.
use socio_workspace.Base.{
  ℕ, ◌+◌, ◌*◌, ◌<◌, ◌≡◌, ◌⊎◌, inl, inr, refl, subst, Bool, true, false, List, [], ◌∷◌, String, leb,
  arith, Bool-cases, Option-cases, All,
}
use socio_workspace.Base.Dict.{Dict}
use socio_workspace.Quarantine.{
  World, OrphanEntry, Protocol, visit, scan, expire, reconcile, recover, quarantine, emit_receipt,
  count_attempt, is_late, truthy, find_matching_session, reconcile_keys, attach_to_session,
}

abbrev Marked : Type 0
Marked = String × OrphanEntry × Bool

module _ (world : World) (now : ℕ) where
  -- The entry stays for its age.
  abbrev pub IsYoung : ℕ → OrphanEntry → Type 0
  IsYoung ttl entry = now < entry.received_at + ttl * 1000000

  abbrev Settled : ℕ → Marked → Type 0
  Settled ttl m = (m.1.reconciled ≡ true) ⊎ ((m.2 ≡ true) ⊎ IsYoung ttl m.1)

  visit-ttl :
      (entry : OrphanEntry) (q : Protocol) → (visit world now entry q).0.ttl_seconds ≡ q.ttl_seconds
  unfolding visit count_attempt recover emit_receipt attach_to_session
  visit-ttl entry q = elim (Bool-cases entry.reconciled) [
    | inl gone ↦ rw gone refl
    | inr here ↦
        rw here
          (elim (Option-cases
            (truthy (find_matching_session reconcile_keys entry.event q.sessions))) [
              | inl none_found ↦ rw none_found refl
              | inr (s, found) ↦ rw found refl
            ])
  ]

  visit-Settled :
      (k : String) (entry : OrphanEntry) (q : Protocol)
      → Settled q.ttl_seconds (k, (visit world now entry q).1, (visit world now entry q).2)
  unfolding visit recover is_late
  visit-Settled k entry q = elim (Bool-cases entry.reconciled) [
    | inl gone ↦ rw gone (inl refl)
    | inr here ↦
        rw here
          (elim (Option-cases
            (truthy (find_matching_session reconcile_keys entry.event q.sessions))) [
              | inl none_found ↦
                  rw none_found
                    (elim (Bool-cases (leb (entry.received_at + q.ttl_seconds * 1000000) now)) [
                      | inl late ↦ inr (inl late)
                      | inr early ↦ inr (inr (ground arith))
                    ])
              | inr (s, found) ↦ rw found (inl refl)
            ])
  ]

  scan-Settled :
      (queue : Dict OrphanEntry) (q : Protocol)
      → All (Settled q.ttl_seconds) (scan world now queue q).1
  unfolding scan
  scan-Settled [] q = tt
  scan-Settled ((k, entry) ∷ queue) q =
      let q' = (visit world now entry q).0 in
      (
        visit-Settled k entry q,
        subst (λ t. All (Settled t) (scan world now queue q').1) (visit-ttl entry q)
            (scan-Settled queue q'),
      )

  -- An entry that left the queue, or is young.
  abbrev pub IsKept : ℕ → String × OrphanEntry → Type 0
  IsKept ttl (k, entry) = (entry.reconciled ≡ true) ⊎ IsYoung ttl entry

  expire-IsKept :
      (ttl : ℕ) (marked : List Marked) (q : Protocol)
      → All (Settled ttl) marked
      → All (IsKept ttl) (expire world marked q).1
  unfolding expire quarantine
  expire-IsKept ttl [] q h = tt
  expire-IsKept ttl ((k, entry, true) ∷ marked) q h =
      (inl refl, expire-IsKept ttl marked (quarantine world entry q).0 h.1)
  expire-IsKept ttl ((k, entry, false) ∷ marked) q h = (kept h.0, expire-IsKept ttl marked q h.1)
    where
      kept :
          (entry.reconciled ≡ true) ⊎ ((false ≡ true) ⊎ IsYoung ttl entry)
          → (entry.reconciled ≡ true) ⊎ IsYoung ttl entry
      kept (inl gone) = inl gone
      kept (inr (inl x)) = absurd (ground arith)
      kept (inr (inr young)) = inr young

-- After a reconciliation, every entry of the queue has been reconciled, or it was received less
-- than the TTL before the time at which the reconciliation began.
pub reconcile-IsKept :
    (world : World) (q : Protocol)
    → All (IsKept world (world.clock q.ticks) q.ttl_seconds) (reconcile world q).orphan_queue
unfolding reconcile
reconcile-IsKept world q =
    let now = world.clock q.ticks in
    let begun = record q { ticks = q.ticks + 1 } in
    expire-IsKept world now q.ttl_seconds (scan world now q.orphan_queue begun).1
      (scan world now q.orphan_queue begun).0 (scan-Settled world now q.orphan_queue begun)
