-- ===== src/Gbrg/Gate/Meet.antt =====
-- The gate includes a cell only if content and authority agree.
use socio_workspace.Base.{
  ℕ, ◌≤◌, ◌≡◌, ◌≢◌, ◌↔◌, ◌⊎◌, inl, inr, refl, sym, ap, subst, ◌∙◌, Bool-cases, Option-cases, true,
  false, Option, none, some, String, eq_iff, arith,
}
use socio_workspace.Gbrg.Gate.{
  ProofArtifact, BlastRadius, Verdict, include, exclude, Process, not_started, signalled, exited,
  Payload, Decision, no_radius, millionths, million, DependentsCount, not_an_int, negative_int,
  decide_inclusion, authorize_inclusion, gate_inclusion, is_dead, unverifiable_reason, blast,
  blast_include_floor, high, Unverifiable, Proposal, score, settle_verdict, payload_verdict,
  exit_verdict, meet, is_include,
}

abbrev pub ValidRadius : BlastRadius → Type 0
ValidRadius no_radius = Unit
ValidRadius (millionths n) = n ≤ million
ValidRadius _ = ⊥

abbrev pub ValidCount : DependentsCount → Type 0
ValidCount not_an_int = ⊥
ValidCount negative_int = ⊥
ValidCount _ = Unit

-- The numbers of the artifact can be scored.
abbrev pub IsScorable : ProofArtifact → Type 0
IsScorable a = ValidRadius a.blast_radius × ValidCount a.dependents_count

-- The cell is neither rejected nor dead, and its numbers are invalid or its radius is at least 0.20.
pub record IsReviewable (a : ProofArtifact) : Type 0 where
  pub live_level : a.epistemic_level ≢ "rejected"
  pub not_failed : a.status ≢ "FAILED"
  pub not_blocked : a.status ≢ "BLOCKED"
  pub worth : (¬ IsScorable a) ⊎ (blast_include_floor ≤ blast a.blast_radius)

-- The process ended with code 0, and its payload, if there is one with a verdict, says "allow". An
-- output that is empty or cannot be parsed is no payload.
pub data Allows : Process → Type 0 where
  silent : Allows (exited 0 none)
  implied : (p : Payload) → p.verdict ≡ none → Allows (exited 0 (some p))
  stated : (p : Payload) → p.verdict ≡ some "allow" → Allows (exited 0 (some p))

is_dead_iff :
    (a : ProofArtifact)
    → (is_dead a ≡ false)
      ↔ ((a.epistemic_level ≢ "rejected") × (a.status ≢ "FAILED") × (a.status ≢ "BLOCKED"))
unfolding is_dead
is_dead_iff a =
    let l = eq_iff a.epistemic_level "rejected" in
    let f = eq_iff a.status "FAILED" in
    let b = eq_iff a.status "BLOCKED" in
    (
      λ h. (λ e. ground (arith, l), λ e. ground (arith, f), λ e. ground (arith, b)),
      λ h. ground (arith, l, f, b),
    )

IsScorable-iff : (a : ProofArtifact) → (unverifiable_reason a ≡ none) ↔ IsScorable a
unfolding unverifiable_reason
IsScorable-iff a = go a.blast_radius a.dependents_count
  where
    go :
        (r : BlastRadius) (d : DependentsCount)
        → (unverifiable_reason (record a { blast_radius = r; dependents_count = d }) ≡ none)
          ↔ (ValidRadius r × ValidCount d)
    go r d = (λ h. ground arith, λ h. ground arith)

score_iff :
    (a : ProofArtifact)
    → ((score a).verdict ≡ include) ↔ (blast_include_floor ≤ blast a.blast_radius)
unfolding score
score_iff a = (λ h. ground arith, λ h. ground arith)

decide_scored :
    (a : ProofArtifact)
    → is_dead a ≡ false
    → unverifiable_reason a ≡ none
    → decide_inclusion a ≡ score a
unfolding decide_inclusion
decide_scored a d u = ground arith

decide_unverifiable :
    (a : ProofArtifact) {r : Unverifiable}
    → is_dead a ≡ false
    → unverifiable_reason a ≡ some r
    → ((decide_inclusion a).verdict ≡ include) × ((decide_inclusion a).priority ≡ high)
unfolding decide_inclusion
decide_unverifiable a d u = (ground arith, ground arith)

decide_dead : (a : ProofArtifact) → is_dead a ≡ true → (decide_inclusion a).verdict ≡ exclude
unfolding decide_inclusion
decide_dead a d = ground arith

-- A cell that is not live, or that scores below the floor, is never proposed; every other one is.
decide_inclusion_iff :
    (a : ProofArtifact) → ((decide_inclusion a).verdict ≡ include) ↔ IsReviewable a
decide_inclusion_iff a = (forth, back)
  where
    forth : (decide_inclusion a).verdict ≡ include → IsReviewable a
    forth h = elim (Bool-cases (is_dead a)) [
      | inl dead ↦ absurd (never (sym (decide_dead a dead) ∙ h))
      | inr live ↦
          let (l, f, b) = (is_dead_iff a).0 live in
          record {
            live_level = l;
            not_failed = f;
            not_blocked = b;
            worth = elim (Option-cases (unverifiable_reason a)) [
              | inl none_found ↦ inr (
                  (score_iff a).0 (sym (ap (λ p. p.verdict) (decide_scored a live none_found)) ∙ h))
              | inr (r, found) ↦ inl (λ s. some_not_none r (sym found ∙ (IsScorable-iff a).1 s))
            ];
          }
    ]
      where
        never : exclude ≡ include → ⊥
        never e = cc

        some_not_none : (r : Unverifiable) → some r ≡ none → ⊥
        some_not_none r e = cc

    back : IsReviewable a → (decide_inclusion a).verdict ≡ include
    back v =
        let live = (is_dead_iff a).1 (v.live_level, v.not_failed, v.not_blocked) in
        elim (Option-cases (unverifiable_reason a)) [
          | inr (r, found) ↦ (decide_unverifiable a live found).0
          | inl none_found ↦
              ap (λ p. p.verdict) (decide_scored a live none_found)
              ∙ (score_iff a).1 (elim v.worth [
                | inl not_scorable ↦ absurd (not_scorable ((IsScorable-iff a).0 none_found))
                | inr enough ↦ enough
              ])
        ]

deny-ne-allow : ◌≢◌ {A = String} "deny" "allow"
deny-ne-allow = ground (arith, eq_iff "deny" "allow")

review-ne-allow : ◌≢◌ {A = String} "require-review" "allow"
review-ne-allow = ground (arith, eq_iff "require-review" "allow")

settle_allow : (e p : String) → settle_verdict e p ≡ "allow" → (e ≡ "allow") × (p ≡ "allow")
unfolding settle_verdict
settle_allow e p h =
    (ground (arith, eq_iff e p, deny-ne-allow), ground (arith, eq_iff e p, deny-ne-allow))

settle_both : settle_verdict "allow" "allow" ≡ "allow"
unfolding settle_verdict
settle_both = refl

exit_allow : (code : ℕ) → exit_verdict code ≡ "allow" → code ≡ 0
unfolding exit_verdict
exit_allow code h = ground (arith, deny-ne-allow, review-ne-allow)

payload_allow :
    (v : Option String) → payload_verdict v "allow" ≡ "allow" → (v ≡ none) ⊎ (v ≡ some "allow")
unfolding payload_verdict
payload_allow none h = inl refl
payload_allow (some v) h = inr (ap some h)

authorize_forth : (process : Process) → (authorize_inclusion process).0 ≡ "allow" → Allows process
unfolding authorize_inclusion
authorize_forth not_started h = absurd (deny-ne-allow h)
authorize_forth (signalled none) h = absurd (deny-ne-allow (settle_allow "deny" "deny" h).0)
authorize_forth (signalled (some p)) h =
    absurd (deny-ne-allow (settle_allow "deny" (payload_verdict p.verdict "deny") h).0)
authorize_forth (exited code none) h =
    rw (exit_allow code (settle_allow (exit_verdict code) (exit_verdict code) h).0) silent
authorize_forth (exited code (some p)) h =
    let (e, v) =
      settle_allow (exit_verdict code) (payload_verdict p.verdict (exit_verdict code)) h in
    rw (exit_allow code e) (elim (payload_allow p.verdict (rw e at v)) [
      | inl absent ↦ implied p absent
      | inr present ↦ stated p present
    ])

authorize_back : (process : Process) → Allows process → (authorize_inclusion process).0 ≡ "allow"
unfolding authorize_inclusion payload_verdict
authorize_back _ silent = settle_both
authorize_back _ (implied p e) =
    subst (λ v. settle_verdict "allow" (payload_verdict v "allow") ≡ "allow") (sym e) settle_both
authorize_back _ (stated p e) =
    subst (λ v. settle_verdict "allow" (payload_verdict v "allow") ≡ "allow") (sym e) settle_both

meet_include :
    (p : Proposal) (authority : String) (raw : Payload)
    → ((meet p authority raw).0 ≡ include) ↔ ((p.verdict ≡ include) × (authority ≡ "allow"))
unfolding meet
meet_include p authority raw = (
  λ h. (ground arith, ground (arith, eq_iff authority "allow")),
  λ (c, v). ground (arith, eq_iff authority "allow"),
)

is_include_iff : (v : Verdict) → (is_include v ≡ true) ↔ (v ≡ include)
unfolding is_include
is_include_iff v = (λ h. ground arith, λ h. ground arith)

module _ (seal : Decision → String) (agent_ref now : String) (process : Process)
    (a : ProofArtifact) where
  meet_iff :
      ((gate_inclusion seal agent_ref now process a).core.included ≡ true)
      ↔ (((decide_inclusion a).verdict ≡ include) × ((authorize_inclusion process).0 ≡ "allow"))
  unfolding gate_inclusion
  meet_iff =
      let p = decide_inclusion a in
      let (v, raw) = authorize_inclusion process in
      let m = meet_include p v raw in
      let i = is_include_iff (meet p v raw).0 in (λ h. m.0 (i.0 h), λ h. i.1 (m.1 h))

  -- A cell is included exactly if it is live and worth a review, and the authority ended with code
  -- 0 and an answer that does not object: it says "allow", or names no verdict, or is empty, or
  -- cannot be parsed. Every other ending of the authority, also one that did not start, was killed,
  -- or contradicts its own answer, excludes.
  pub gate_inclusion_iff :
      ((gate_inclusion seal agent_ref now process a).core.included ≡ true)
      ↔ (IsReviewable a × Allows process)
  gate_inclusion_iff = (
    λ h. let (c, v) = meet_iff.0 h in ((decide_inclusion_iff a).0 c, authorize_forth process v),
    λ (c, v). meet_iff.1 ((decide_inclusion_iff a).1 c, authorize_back process v),
  )

  -- A live cell whose numbers cannot be scored is never dropped by the content rule: under an
  -- authority that allows it is included, with high priority.
  pub gate_inclusion_unscorable :
      a.epistemic_level ≢ "rejected"
      → a.status ≢ "FAILED"
      → a.status ≢ "BLOCKED"
      → ¬ IsScorable a
      → Allows process
      → let d = (gate_inclusion seal agent_ref now process a).core in
        (d.included ≡ true) × (d.priority ≡ high)
  unfolding gate_inclusion
  gate_inclusion_unscorable level failed blocked bad ok =
      let live = (is_dead_iff a).1 (level, failed, blocked) in
      let v : IsReviewable a = record {
        live_level = level;
        not_failed = failed;
        not_blocked = blocked;
        worth = inl bad;
      } in
      let included = meet_iff.1 ((decide_inclusion_iff a).1 v, authorize_back process ok) in
      elim (Option-cases (unverifiable_reason a)) [
        | inl none_found ↦ absurd (bad ((IsScorable-iff a).0 none_found))
        | inr (r, found) ↦ (included, rw included (decide_unverifiable a live found).1)
      ]
