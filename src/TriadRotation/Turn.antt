-- ===== src/TriadRotation/Turn.antt =====
-- Three epochs in a row of the rotation of automation/triad_rotation.py.
use socio_workspace.Base.{
  ℕ, zero, suc, ◌+◌, ◌*◌, ◌%◌, ◌<◌, ◌≡◌, ◌≢◌, ◌⊎◌, inl, inr, refl, sym, ◌∙◌, true, false, some,
  List, [], ◌∷◌, String, str_eq, eq_iff, eq_refl, arith, ◌==◌, Bool-cases,
}
use socio_workspace.Propagation.{elem}
use socio_workspace.TriadRotation.{
  ℤ, pos, negsuc, ◌*ℤ◌, mod3, Assignment, is_triad, master_at, rotate,
}
use socio_workspace.TriadRotation.Thirds.{mod3-mul, next, mod3-next}

-- The master at a place of a triad.
pick : String → String → String → ℕ → String
pick a b c zero = a
pick a b c (suc zero) = b
pick a b c (suc (suc i)) = c

master_at-pick :
    (a b c : String) (i : ℕ) → i < 3 → master_at (a ∷ b ∷ c ∷ []) i ≡ some (pick a b c i)
unfolding master_at pick
master_at-pick a b c zero h = refl
master_at-pick a b c (suc zero) h = refl
master_at-pick a b c (suc (suc zero)) h = refl
master_at-pick a b c (suc (suc (suc i))) h = absurd (omega arith)

elem-pick : (a b c : String) (i : ℕ) → elem (pick a b c i) (a ∷ b ∷ c ∷ []) ≡ true
unfolding pick elem
elem-pick a b c zero = rw (eq_refl a) refl
elem-pick a b c (suc zero) = ground (arith, eq_refl b)
elem-pick a b c (suc (suc i)) = ground (arith, eq_refl c)

abbrev pub AllDifferent : String → String → String → Type 0
AllDifferent x y z = (x ≢ y) × (x ≢ z) × (y ≢ z)

different : (x y : String) → str_eq x y ≡ false → x ≢ y
different x y h e = true_ne_false (sym ((eq_iff x y).1 e) ∙ h)
  where
    true_ne_false : true ≡ false → ⊥
    true_ne_false t = cc

triad-AllDifferent : (a b c : String) → is_triad (a ∷ b ∷ c ∷ []) ≡ true → AllDifferent a b c
unfolding is_triad
triad-AllDifferent a b c h =
    (different a b (ground arith), different a c (ground arith), different b c (ground arith))

pick-ne :
    (a b c : String) (i j : ℕ)
    → AllDifferent a b c
    → i < 3
    → j < 3
    → i ≢ j
    → pick a b c i ≢ pick a b c j
unfolding pick
pick-ne a b c zero zero d h k n e = n refl
pick-ne a b c zero (suc zero) (ab, ac, bc) h k n e = ab e
pick-ne a b c zero (suc (suc j)) (ab, ac, bc) h k n e = ac e
pick-ne a b c (suc zero) zero (ab, ac, bc) h k n e = ab (sym e)
pick-ne a b c (suc zero) (suc zero) d h k n e = n refl
pick-ne a b c (suc zero) (suc (suc j)) (ab, ac, bc) h k n e = bc e
pick-ne a b c (suc (suc i)) zero (ab, ac, bc) h k n e = ac (sym e)
pick-ne a b c (suc (suc i)) (suc zero) (ab, ac, bc) h k n e = bc (sym e)
pick-ne a b c (suc (suc i)) (suc (suc j)) d h k n e = n (omega (arith, h, k))

picks-AllDifferent :
    (a b c : String) (i j k : ℕ)
    → AllDifferent a b c
    → i < 3
    → j < 3
    → k < 3
    → (i ≢ j) × (i ≢ k) × (j ≢ k)
    → AllDifferent (pick a b c i) (pick a b c j) (pick a b c k)
picks-AllDifferent a b c i j k d hi hj hk (ij, ik, jk) =
    (pick-ne a b c i j d hi hj ij, pick-ne a b c i k d hi hk ik, pick-ne a b c j k d hj hk jk)

-- The assignment at a shift.
abbrev at_shift : String → String → String → ℤ → ℕ → Assignment
at_shift a b c epoch s = record {
  epoch = epoch;
  leader = pick a b c ((0 + s) % 3);
  attestor = pick a b c ((1 + s) % 3);
  witness = pick a b c ((2 + s) % 3);
}

rotate-at_shift :
    (a b c : String) (epoch step : ℤ)
    → is_triad (a ∷ b ∷ c ∷ []) ≡ true
    → (mod3 step == 0) ≡ false
    → rotate (a ∷ b ∷ c ∷ []) epoch step ≡ some (at_shift a b c epoch (mod3 (epoch *ℤ step)))
unfolding rotate
rotate-at_shift a b c epoch step t h =
    let s = mod3 (epoch *ℤ step) in
    rw
      (
        t,
        h,
        master_at-pick a b c ((0 + s) % 3) (omega arith),
        master_at-pick a b c ((1 + s) % 3) (omega arith),
        master_at-pick a b c ((2 + s) % 3) (omega arith),
      )
      refl

-- The three roles are held by three masters of the triad.
pub record Holds (masters : List String) (x : Assignment) : Type 0 where
  pub leads : elem x.leader masters ≡ true
  pub attests : elem x.attestor masters ≡ true
  pub witnesses : elem x.witness masters ≡ true
  pub different : AllDifferent x.leader x.attestor x.witness

at_shift-Holds :
    (a b c : String) (epoch : ℤ) (s : ℕ)
    → AllDifferent a b c
    → Holds (a ∷ b ∷ c ∷ []) (at_shift a b c epoch s)
at_shift-Holds a b c epoch s d = record {
  leads = elem-pick a b c ((0 + s) % 3);
  attests = elem-pick a b c ((1 + s) % 3);
  witnesses = elem-pick a b c ((2 + s) % 3);
  different =
      picks-AllDifferent a b c ((0 + s) % 3) ((1 + s) % 3) ((2 + s) % 3) d (omega arith)
        (omega arith) (omega arith) (omega arith, omega arith, omega arith);
}

-- In three assignments each role goes to three different masters.
pub record IsTurn (x y z : Assignment) : Type 0 where
  pub leaders : AllDifferent x.leader y.leader z.leader
  pub attestors : AllDifferent x.attestor y.attestor z.attestor
  pub witnesses : AllDifferent x.witness y.witness z.witness

-- The shifts of three epochs in a row, by the remainder of the first and of the step.
shifts_differ :
    (q m i : ℕ)
    → (m ≡ 1) ⊎ (m ≡ 2)
    → let s0 = (q * m) % 3 in
      let q1 = (q + 1) % 3 in
      let s1 = (q1 * m) % 3 in
      let s2 = ((q1 + 1) % 3 * m) % 3 in
      ((i + s0) % 3 ≢ (i + s1) % 3) × ((i + s0) % 3 ≢ (i + s2) % 3) × ((i + s1) % 3 ≢ (i + s2) % 3)
shifts_differ q m i (inl e) = rw e (omega arith, omega arith, omega arith)
shifts_differ q m i (inr e) = rw e (omega arith, omega arith, omega arith)

shift-next : (e step : ℤ) → mod3 (next e *ℤ step) ≡ (((mod3 e + 1) % 3) * mod3 step) % 3
shift-next e step = mod3-mul (next e) step ∙ rw (mod3-next e) refl

at_shift-IsTurn :
    (a b c : String) (e e' e'' : ℤ) (s s' s'' : ℕ)
    → AllDifferent a b c
    → ((i : ℕ)
        → ((i + s) % 3 ≢ (i + s') % 3)
          × ((i + s) % 3 ≢ (i + s'') % 3)
          × ((i + s') % 3 ≢ (i + s'') % 3))
    → IsTurn (at_shift a b c e s) (at_shift a b c e' s') (at_shift a b c e'' s'')
at_shift-IsTurn a b c e e' e'' s s' s'' d h = record {
  leaders = role 0;
  attestors = role 1;
  witnesses = role 2;
}
  where
    role :
        (i : ℕ)
        → AllDifferent
            (pick a b c ((i + s) % 3))
            (pick a b c ((i + s') % 3))
            (pick a b c ((i + s'') % 3))
    role i =
        picks-AllDifferent a b c ((i + s) % 3) ((i + s') % 3) ((i + s'') % 3) d (omega arith)
          (omega arith) (omega arith) (h i)

coprime : (step : ℤ) → (mod3 step == 0) ≡ false → (mod3 step ≡ 1) ⊎ (mod3 step ≡ 2)
unfolding mod3
coprime (pos n) h = elim (Bool-cases (n % 3 == 1)) [
  | inl first ↦ inl (ground arith)
  | inr second ↦ inr (ground arith)
]
coprime (negsuc n) h = elim (Bool-cases (n % 3 == 1)) [
  | inl first ↦ inl (ground arith)
  | inr second ↦ inr (ground arith)
]

-- For three different masters and a step that is not a multiple of three, the rotation gives an
-- assignment at every epoch, before zero too, in which three masters hold the three roles; and
-- over an epoch and the next two, each role is held by three different masters. So every master
-- holds every role exactly once in any three epochs.
pub rotate-IsTurn :
    (masters : List String) (step e : ℤ)
    → is_triad masters ≡ true
    → (mod3 step == 0) ≡ false
    → (x : Assignment) × (y : Assignment) × (z : Assignment) × (rotate masters e step ≡ some x)
      × (rotate masters (next e) step ≡ some y)
      × (rotate masters (next (next e)) step ≡ some z)
      × Holds masters x
      × IsTurn x y z
unfolding is_triad
rotate-IsTurn [] step e t h = absurd (ground arith)
rotate-IsTurn (a ∷ []) step e t h = absurd (ground arith)
rotate-IsTurn (a ∷ b ∷ []) step e t h = absurd (ground arith)
rotate-IsTurn (a ∷ b ∷ c ∷ d ∷ masters) step e t h = absurd (ground arith)
rotate-IsTurn (a ∷ b ∷ c ∷ []) step e t h =
    let d = triad-AllDifferent a b c t in
    let s = λ (k : ℤ). mod3 (k *ℤ step) in
    let s0 : s e ≡ (mod3 e * mod3 step) % 3 = mod3-mul e step in
    let s1 : s (next e) ≡ (((mod3 e + 1) % 3) * mod3 step) % 3 = shift-next e step in
    let s2 : s (next (next e)) ≡ (((((mod3 e + 1) % 3) + 1) % 3) * mod3 step) % 3 =
      shift-next (next e) step ∙ rw (mod3-next e) refl in
    (
      at_shift a b c e (s e),
      at_shift a b c (next e) (s (next e)),
      at_shift a b c (next (next e)) (s (next (next e))),
      rotate-at_shift a b c e step t h,
      rotate-at_shift a b c (next e) step t h,
      rotate-at_shift a b c (next (next e)) step t h,
      at_shift-Holds a b c e (s e) d,
      at_shift-IsTurn a b c e (next e) (next (next e)) (s e) (s (next e)) (s (next (next e))) d
          (λ i. rw (s0, s1, s2) (shifts_differ (mod3 e) (mod3 step) i (coprime step h))),
    )
