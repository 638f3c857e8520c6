-- ===== src/TriadRotation.antt =====
-- automation/triad_rotation.py: which of three masters holds which role at an epoch. Epochs and steps
-- are integers. Times are integers of microseconds and the period a positive number of them, where
-- the code divides floats. A receipt is its writer and its parsed time, if it has them.
pub mod Thirds
pub mod Turn
pub mod OnSchedule
use socio_workspace.Base.{
  ℕ, zero, suc, ◌+◌, ◌-◌, ◌*◌, ◌/◌, ◌%◌, Bool, true, false, not, ◌&&◌, Option, none, some, List, [],
  ◌∷◌, String, str_eq, ◌==◌, leb, if◌then◌else◌, ◌>>=◌,
}
use socio_workspace.Propagation.{elem}

-- `negsuc n` is -1 - n.
pub data ℤ : Type 0 where
  pos negsuc : ℕ → ℤ

-- - n
unfoldable pub neg_of : ℕ → ℤ
neg_of zero = pos zero
neg_of (suc n) = negsuc n

infixl 60 ◌*ℤ◌
unfoldable pub ◌*ℤ◌ : ℤ → ℤ → ℤ
pos a *ℤ pos b = pos (a * b)
pos a *ℤ negsuc b = neg_of (a * (b + 1))
negsuc a *ℤ pos b = neg_of ((a + 1) * b)
negsuc a *ℤ negsuc b = pos ((a + 1) * (b + 1))

-- a - b
unfoldable pub diff : ℕ → ℕ → ℤ
diff a b = if leb b a then pos (a - b) else neg_of (b - a)

infixl 50 ◌-ℤ◌
unfoldable pub ◌-ℤ◌ : ℤ → ℤ → ℤ
pos a -ℤ pos b = diff a b
pos a -ℤ negsuc b = pos (a + (b + 1))
negsuc a -ℤ pos b = negsuc (a + b)
negsuc a -ℤ negsuc b = diff b a

-- Python's n % 3, which is never negative.
unfoldable pub mod3 : ℤ → ℕ
mod3 (pos n) = n % 3
mod3 (negsuc n) = 2 - n % 3

-- floor(n / p)
unfoldable pub floor_div : ℤ → ℕ → ℤ
floor_div (pos n) p = pos (n / p)
floor_div (negsuc n) p = negsuc (n / p)

pub record Assignment : Type 0 where
  pub epoch : ℤ
  pub leader : String
  pub attestor : String
  pub witness : String

-- Three masters, all different.
unfoldable pub is_triad : List String → Bool
is_triad (a ∷ b ∷ c ∷ []) = not (str_eq a b) && (not (str_eq a c) && not (str_eq b c))
is_triad other = false

-- `masters[i]`, for i below three in a list of three.
unfoldable pub master_at : List String → ℕ → Option String
master_at [] i = none
master_at (m ∷ masters) zero = some m
master_at (m ∷ masters) (suc i) = master_at masters i

-- `none` is a `ValueError`.
unfoldable pub rotate : List String → ℤ → ℤ → Option Assignment
rotate masters epoch step =
    if not (is_triad masters)
    then none
    else if mod3 step == 0
    then none
    else let shift = mod3 (epoch *ℤ step) in
      master_at masters ((0 + shift) % 3) >>= λ leader.
      master_at masters ((1 + shift) % 3) >>= λ attestor.
      master_at masters ((2 + shift) % 3) >>= λ witness.
      some (record { epoch = epoch; leader = leader; attestor = attestor; witness = witness })

pub record RotationSchedule : Type 0 where
  pub masters : List String
  pub period : ℕ
  pub step : ℤ
  pub phase : ℤ

unfoldable pub epoch_for_time : ℤ → ℕ → ℤ → Option ℤ
epoch_for_time t period phase = if period == 0 then none else some (floor_div (t -ℤ phase) period)

unfoldable pub at_epoch : RotationSchedule → ℤ → Option Assignment
at_epoch s epoch = rotate s.masters epoch s.step

unfoldable pub at_time : RotationSchedule → ℤ → Option Assignment
at_time s t = epoch_for_time t s.period s.phase >>= at_epoch s

-- `issued_at` after the parse. The outer `none` is an exception, the inner one no time.
unfoldable pub scheduled_leader_at : RotationSchedule → Option ℤ → Option (Option String)
scheduled_leader_at s none = some none
scheduled_leader_at s (some t) = at_time s t >>= λ a. some (some a.leader)

pub record WriteReceipt : Type 0 where
  pub writer_principal : Option String
  pub issued_at : Option ℤ

-- Whether the writer is one of the masters and not the expected one.
unfoldable pub is_out_of_turn : List String → Option String → String → Bool
is_out_of_turn masters none expected = false
is_out_of_turn masters (some writer) expected = elem writer masters && not (str_eq writer expected)

-- The numbers of the receipts that are reported, from `i` on.
unfoldable pub writers_on_schedule : RotationSchedule → ℕ → List WriteReceipt → Option (List ℕ)
writers_on_schedule s i [] = some []
writers_on_schedule s i (r ∷ receipts) = scheduled_leader_at s r.issued_at >>= λ expected.
    writers_on_schedule s (suc i) receipts >>= λ reasons. some (elim expected [
      | none ↦ reasons
      | some leader ↦
          if is_out_of_turn s.masters r.writer_principal leader then i ∷ reasons else reasons
    ])
