-- ===== src/Tests/TriadRotation.antt =====
-- Runs of automation/triad_rotation.py with three masters.
use socio_workspace.Base.{ℕ, ◌≡◌, ◌↔◌, refl, none, some, List, [], ◌∷◌, String, arith, All}
use socio_workspace.TriadRotation.{
  pos, negsuc, mod3, Assignment, is_triad, rotate, RotationSchedule, WriteReceipt,
  writers_on_schedule,
}
use socio_workspace.TriadRotation.Thirds.{next}
use socio_workspace.TriadRotation.Turn.{Holds, IsTurn, rotate-IsTurn}
use socio_workspace.TriadRotation.OnSchedule.{InTurn, writers_on_schedule_iff}

abbrev masters : List String
masters = "a" ∷ "b" ∷ "c" ∷ []

rotate-IsTurn_example :
    (x : Assignment) × (y : Assignment) × (z : Assignment) × (rotate masters (negsuc 1) (pos 2)
      ≡ some x)
    × (rotate masters (negsuc 0) (pos 2) ≡ some y)
    × (rotate masters (pos 0) (pos 2) ≡ some z)
    × Holds masters x
    × IsTurn x y z
unfolding next is_triad mod3
rotate-IsTurn_example = rotate-IsTurn masters (pos 2) (negsuc 1) refl refl

-- Epochs of ten seconds.
abbrev schedule : RotationSchedule
schedule = record { masters = masters; period = 10000000; step = pos 1; phase = pos 0 }

abbrev receipts : List WriteReceipt
receipts =
    record { writer_principal = some "a"; issued_at = some (pos 1000000) }
    ∷ record { writer_principal = some "a"; issued_at = some (pos 11000000) }
    ∷ record { writer_principal = some "stranger"; issued_at = none }
    ∷ []

writers_on_schedule_iff_example :
    (reasons : List ℕ) × (writers_on_schedule schedule 0 receipts ≡ some reasons)
    × ((reasons ≡ []) ↔ All (InTurn schedule) receipts)
unfolding is_triad mod3
writers_on_schedule_iff_example =
    writers_on_schedule_iff schedule (refl, refl, omega arith) 0 receipts
