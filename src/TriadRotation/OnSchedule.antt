-- ===== src/TriadRotation/OnSchedule.antt =====
-- What `writers_on_schedule` of automation/triad_rotation.py reports.
use socio_workspace.Base.{
  ℕ, suc, ◌<◌, ◌≡◌, ◌↔◌, inl, inr, ◌⊎◌, refl, sym, ◌∙◌, ap, subst, Bool, true, false, Option, none,
  some, List, [], ◌∷◌, String, str_eq, eq_iff, arith, ◌==◌, Bool-cases, Option-cases, All, some-inj,
}
use socio_workspace.Propagation.{elem}
use socio_workspace.TriadRotation.{
  ℤ, mod3, Assignment, is_triad, RotationSchedule, epoch_for_time, at_epoch, at_time, floor_div,
  ◌-ℤ◌, scheduled_leader_at, WriteReceipt, is_out_of_turn, writers_on_schedule,
}
use socio_workspace.TriadRotation.Turn.{rotate-IsTurn}

-- What `load_schedule` validates, with a period that is not zero.
abbrev pub IsDeclared : RotationSchedule → Type 0
IsDeclared s = (is_triad s.masters ≡ true) × ((mod3 s.step == 0) ≡ false) × (0 < s.period)

abbrev pub is_master : List String → Option String → Bool
is_master masters none = false
is_master masters (some writer) = elem writer masters

-- The receipt has no time, or its writer is no master, or it is the leader at that time.
abbrev pub InTurn : RotationSchedule → WriteReceipt → Type 0
InTurn s r =
    (r.issued_at ≡ none)
    ⊎ ((t : ℤ) × (a : Assignment) × (r.issued_at ≡ some t)
        × (at_time s t ≡ some a)
        × ((is_master s.masters r.writer_principal ≡ false) ⊎ (r.writer_principal ≡ some a.leader)))

module _ (s : RotationSchedule) (declared : IsDeclared s) where
  at_time-some : (t : ℤ) → (a : Assignment) × (at_time s t ≡ some a)
  unfolding at_time epoch_for_time at_epoch
  at_time-some t =
      let epoch = floor_div (t -ℤ s.phase) s.period in
      let (triad, coprime, positive) = declared in
      let (x, y, z, e, e1, e2, holds, turn) = rotate-IsTurn s.masters s.step epoch triad coprime in
      let ok : (s.period == 0) ≡ false = ground (arith, positive) in (x, rw ok e)

  scheduled-none : scheduled_leader_at s none ≡ some none
  unfolding scheduled_leader_at
  scheduled-none = refl

  scheduled-some :
      (t : ℤ) (a : Assignment)
      → at_time s t ≡ some a
      → scheduled_leader_at s (some t) ≡ some (some a.leader)
  unfolding scheduled_leader_at
  scheduled-some t a e = rw e refl

  in_turn :
      (r : WriteReceipt) (t : ℤ) (a : Assignment)
      → r.issued_at ≡ some t
      → at_time s t ≡ some a
      → is_out_of_turn s.masters r.writer_principal a.leader ≡ false
      → InTurn s r
  unfolding is_out_of_turn
  in_turn r t a timed e ok = inr (t, a, timed, e, fair r.writer_principal ok)
    where
      fair :
          (w : Option String)
          → is_out_of_turn s.masters w a.leader ≡ false
          → (is_master s.masters w ≡ false) ⊎ (w ≡ some a.leader)
      fair none h = inl refl
      fair (some writer) h = elim (Bool-cases (elem writer s.masters)) [
        | inl member ↦
            let hit : str_eq writer a.leader ≡ true = ground (arith, h, member) in
            inr (ap some ((eq_iff writer a.leader).0 hit))
        | inr stranger ↦ inl stranger
      ]

  out_of_turn :
      (r : WriteReceipt) (t : ℤ) (a : Assignment)
      → r.issued_at ≡ some t
      → at_time s t ≡ some a
      → is_out_of_turn s.masters r.writer_principal a.leader ≡ true
      → InTurn s r
      → ⊥
  unfolding is_out_of_turn
  out_of_turn r t a timed e bad (inl untimed) = none_some t (sym untimed ∙ timed)
    where
      none_some : (t : ℤ) → none ≡ some t → ⊥
      none_some t h = cc
  out_of_turn r t a timed e bad (inr (t', a', timed', e', fair)) =
      let same_time : t' ≡ t = some-inj t' t (sym timed' ∙ timed) in
      let same : a' ≡ a = some-inj a' a (sym e' ∙ (ap (at_time s) same_time ∙ e)) in
      unfair r.writer_principal bad (
        subst
          (λ (x : Assignment).
            (is_master s.masters r.writer_principal ≡ false) ⊎ (r.writer_principal ≡ some x.leader))
          same fair)
    where
      false_ne_true : false ≡ true → ⊥
      false_ne_true x = cc

      unfair :
          (w : Option String)
          → is_out_of_turn s.masters w a.leader ≡ true
          → (is_master s.masters w ≡ false) ⊎ (w ≡ some a.leader)
          → ⊥
      unfair none h f = false_ne_true h
      unfair (some writer) h (inl stranger) = false_ne_true (ground (arith, h, stranger))
      unfair (some writer) h (inr leads) =
          let same = some-inj writer a.leader leads in
          false_ne_true (ground (arith, h, (eq_iff writer a.leader).1 same))

  -- If the schedule is as declared, with a positive period, then the check of any receipts returns,
  -- and it reports nothing exactly if every receipt has no time, or was written by no master, or by
  -- the leader at its time.
  pub writers_on_schedule_iff :
      (i : ℕ) (receipts : List WriteReceipt)
      → (reasons : List ℕ) × (writers_on_schedule s i receipts ≡ some reasons)
        × ((reasons ≡ []) ↔ All (InTurn s) receipts)
  unfolding writers_on_schedule
  writers_on_schedule_iff i [] = ([], refl, ((λ e. tt), (λ a. refl)))
  writers_on_schedule_iff i (r ∷ receipts) =
      let (reasons, e, iff) = writers_on_schedule_iff (suc i) receipts in
      elim (Option-cases r.issued_at) [
        | inl untimed ↦ (
          reasons,
          rw (untimed, scheduled-none, e) refl,
          ((λ x. (inl untimed, iff.0 x)), (λ a. iff.1 (a.1))),
        )
        | inr (t, timed) ↦
            let (a, at) = at_time-some t in
            elim (Bool-cases (is_out_of_turn s.masters r.writer_principal a.leader)) [
              | inl bad ↦ (
                i ∷ reasons,
                rw (timed, scheduled-some t a at, e, bad) refl,
                (
                  (λ x. absurd (cons_nil i reasons x)),
                  (λ fair. absurd (out_of_turn r t a timed at bad (fair.0))),
                ),
              )
              | inr good ↦ (
                reasons,
                rw (timed, scheduled-some t a at, e, good) refl,
                ((λ x. (in_turn r t a timed at good, iff.0 x)), (λ fair. iff.1 (fair.1))),
              )
            ]
      ]
    where
      cons_nil : (i : ℕ) (l : List ℕ) → i ∷ l ≡ [] → ⊥
      cons_nil i l h = cc
