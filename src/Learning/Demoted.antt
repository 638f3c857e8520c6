-- ===== src/Learning/Demoted.antt =====
-- One class of `analyze` of automation/learning.py: whether it is due, and what it is demoted to.
use socio_workspace.Base.{
  ℕ, suc, ◌*◌, ◌≤◌, ◌≡◌, inl, inr, refl, ap, subst, Bool, true, false, ◌&&◌, Option, none, some,
  List, String, str_eq, eq_iff, arith, Bool-cases, ltb, leb,
}
use socio_workspace.Policy.{ResponsePolicy, law_for}
use socio_workspace.Responder.{Receipt}
use socio_workspace.Responder.Verdict.{rank, rank_in}
use socio_workspace.Learning.{index, below, demote, Stats, Recommendation, recommended, recommend}
use socio_workspace.Learning.Counts.{attempts_of, failures_of}

-- A verdict that is not the weakest.
abbrev pub is_above : String → Bool
is_above law = ltb 0 (rank law) && ltb (rank law) 5

-- What a law is demoted to.
abbrev IsBelow : String → Option String → Type 0
IsBelow law none = is_above law ≡ false
IsBelow law (some lower) = (is_above law ≡ true) × (suc (rank lower) ≡ rank law)

module _ (law : String) where
  -- A demotion is one step down the lattice.
  demote-IsBelow : IsBelow law (demote law)
  unfolding demote below index rank rank_in
  demote-IsBelow = elim (Bool-cases (str_eq "refuse" law)) [
    | inl hit ↦ at "refuse" hit refl
    | inr m0 ↦ elim (Bool-cases (str_eq "quarantine" law)) [
      | inl hit ↦ at "quarantine" hit (refl, refl)
      | inr m1 ↦ elim (Bool-cases (str_eq "weak" law)) [
        | inl hit ↦ at "weak" hit (refl, refl)
        | inr m2 ↦ elim (Bool-cases (str_eq "probable" law)) [
          | inl hit ↦ at "probable" hit (refl, refl)
          | inr m3 ↦ elim (Bool-cases (str_eq "sealed" law)) [
            | inl hit ↦ at "sealed" hit (refl, refl)
            | inr m4 ↦ rw (m0, m1, m2, m3, m4) (rw (m0, m1, m2, m3, m4) refl)
          ]
        ]
      ]
    ]
  ]
    where
      at : (v : String) → str_eq v law ≡ true → IsBelow v (demote v) → IsBelow law (demote law)
      at v hit = subst (λ w. IsBelow w (demote w)) ((eq_iff v law).0 hit)

-- What makes a class due for a demotion: enough attempts, enough of them failed, and a law that can
-- be lowered.
unfoldable pub is_due : ResponsePolicy → ℕ → ℕ → String → ℕ → ℕ → Bool
is_due p min_samples threshold kind attempts failures =
    leb min_samples attempts
    && (leb (threshold * attempts) (10000 * failures) && is_above (law_for p kind))

-- What a recommendation says of the receipts.
pub record IsDemotion (p : ResponsePolicy) (min_samples threshold : ℕ) (decisions : List Receipt)
    (rec : Recommendation) : Type 0 where
  pub attempts : rec.attempts ≡ attempts_of rec.kind_class decisions
  pub failures : rec.failures ≡ failures_of rec.kind_class decisions
  pub enough : min_samples ≤ rec.attempts
  pub failing : threshold * rec.attempts ≤ 10000 * rec.failures
  pub current : rec.current_law ≡ law_for p rec.kind_class
  pub one_down : suc (rank rec.recommended_law) ≡ rank rec.current_law

module _ (p : ResponsePolicy) (min_samples threshold : ℕ) where
  -- What the body of the loop does, told by the tests.
  abbrev pub IsAdvice : String → Stats → Option Recommendation → Type 0
  IsAdvice kind s none = is_due p min_samples threshold kind s.attempts s.failures ≡ false
  IsAdvice kind s (some rec) =
      (is_due p min_samples threshold kind s.attempts s.failures ≡ true)
      × (rec.kind_class ≡ kind)
      × (rec.attempts ≡ s.attempts)
      × (rec.failures ≡ s.failures)
      × (min_samples ≤ s.attempts)
      × (threshold * s.attempts ≤ 10000 * s.failures)
      × (rec.current_law ≡ law_for p kind)
      × (suc (rank rec.recommended_law) ≡ rank rec.current_law)

  recommended-IsAdvice :
      (kind : String) (s : Stats) (o : Option String)
      → min_samples ≤ s.attempts
      → threshold * s.attempts ≤ 10000 * s.failures
      → IsBelow (law_for p kind) o
      → IsAdvice kind s (recommended kind (law_for p kind) s o)
  unfolding recommended is_due
  recommended-IsAdvice kind s none enough failing h = ground (arith, h)
  recommended-IsAdvice kind s (some lower) enough failing (h, e) =
      elim (Bool-cases (str_eq lower (law_for p kind))) [
        | inl same ↦ absurd (omega (arith, ap rank ((eq_iff lower (law_for p kind)).0 same), e))
        | inr differ ↦
            rw differ
              (ground (arith, h, enough, failing), refl, refl, refl, enough, failing, refl, e)
      ]

  pub recommend-IsAdvice :
      (kind : String) (s : Stats) → IsAdvice kind s (recommend p min_samples threshold kind s)
  unfolding recommend is_due
  recommend-IsAdvice kind s = elim (Bool-cases (ltb s.attempts min_samples)) [
    | inl few ↦ rw few (ground (arith, few))
    | inr enough ↦ elim (Bool-cases (ltb (10000 * s.failures) (threshold * s.attempts))) [
      | inl healing ↦ rw (enough, healing) (ground (arith, healing))
      | inr failing ↦
          rw (enough, failing)
            (recommended-IsAdvice kind s (demote (law_for p kind)) (ground (arith, enough))
              (ground (arith, failing)) (demote-IsBelow (law_for p kind)))
    ]
  ]
