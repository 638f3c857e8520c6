-- ===== src/Responder/Verdict.antt =====
-- What a decision of automation/responder.py may be.
use socio_workspace.Base.{
  ℕ, suc, ◌≤◌, ◌<◌, ◌≡◌, ◌⊎◌, inl, inr, refl, sym, subst, true, false, Option, none, some, List, [],
  ◌∷◌, String, str_eq, arith, Bool-cases, Option-cases, if◌then◌else◌, All, some-inj, eq_iff,
  List-cases, leb, ◌==◌,
}
use socio_workspace.Propagation.{elem}
use socio_workspace.Policy.{ResponsePolicy, law_for, action_for, verdicts, validate_policy}
use socio_workspace.Policy.Merge.{validate_policy-known}
use socio_workspace.Responder.{
  Beacon, Receipt, kind_of, compute_iri, boundary_breaches, compose_evidence, total_weight,
  breached, max_iri, no_axes, primary_from, compose_receipt, escalate, laws, effective_law,
  reasoned, decide_composed,
}

-- The place of the text in the list.
unfoldable pub rank_in : String → List String → ℕ
rank_in v [] = 0
rank_in v (w ∷ ws) = if str_eq w v then 0 else suc (rank_in v ws)

-- The place in the lattice, from the weakest verdict on.
unfoldable pub rank : String → ℕ
unfolding rank_in
rank v = rank_in v verdicts

abbrev pub AreVerdicts : List String → Type 0
AreVerdicts vs = All (λ v. elem v verdicts ≡ true) vs

-- What the kernel documents of `meet`: of one or more verdicts it returns the least.
abbrev pub IsMeet : (List String → Option String) → Type 0
IsMeet meet =
    (v : String) (vs : List String)
    → AreVerdicts (v ∷ vs)
    → (w : String) × (meet (v ∷ vs) ≡ some w)
      × (elem w (v ∷ vs) ≡ true)
      × All (λ u. rank w ≤ rank u) (v ∷ vs)

-- Every gate let the beacons pass, and the verdict is at most each law and the evidence.
pub record IsReasoned (p : ResponsePolicy) (beacons : List Beacon) (r : Receipt) : Type 0 where
  pub verdict : String
  pub evidence : String
  pub reached : r.verdict ≡ some verdict
  pub acts : r.action ≡ action_for p verdict
  pub composed : compose_evidence beacons ≡ some evidence
  pub below_evidence : rank verdict ≤ rank evidence
  pub each :
      All
        (λ b.
          (boundary_breaches b p.boundary_axes ≡ [])
          × (compute_iri b < p.iri_block)
          × (rank verdict ≤ rank (law_for p (kind_of b))))
        beacons

-- A gate that stops the beacons.
abbrev pub Stops : ResponsePolicy → List Beacon → Type 0
Stops p beacons =
    (no_axes (breached beacons p.boundary_axes) ≡ false)
    ⊎ ((p.iri_block ≤ max_iri beacons) ⊎ (compose_evidence beacons ≡ none))

-- The receipt of a stopped decision.
abbrev pub IsEscalated : Receipt → Type 0
IsEscalated r = (r.verdict ≡ none) × (r.action ≡ "escalate_human")

is_verdict : (v ev : String) → elem v verdicts ≡ true → some v ≡ some ev → elem ev verdicts ≡ true
is_verdict v ev e h = subst (λ x. elem x verdicts ≡ true) (some-inj v ev h) e

compose_evidence-verdict :
    (beacons : List Beacon) (ev : String)
    → compose_evidence beacons ≡ some ev
    → elem ev verdicts ≡ true
unfolding compose_evidence elem
compose_evidence-verdict beacons ev h =
    let total = total_weight beacons in
    elim (Bool-cases (leb total 0)) [
      | inl nothing ↦ absurd (ground arith)
      | inr some_weight ↦ elim (Bool-cases (leb 3 total)) [
        | inl strong ↦ is_verdict "sealed" ev refl (rw (some_weight, strong) at h)
        | inr below ↦ elim (Bool-cases (total == 2)) [
          | inl two ↦ is_verdict "probable" ev refl (rw (some_weight, below, two) at h)
          | inr single ↦ is_verdict "weak" ev refl (rw (some_weight, below, single) at h)
        ]
      ]
    ]

elem-AreVerdicts :
    (w : String) (vs : List String) → AreVerdicts vs → elem w vs ≡ true → elem w verdicts ≡ true
unfolding elem
elem-AreVerdicts w [] a h = absurd (ground arith)
elem-AreVerdicts w (v ∷ vs) a h = elim (Bool-cases (str_eq w v)) [
  | inl hit ↦ subst (λ x. elem x verdicts ≡ true) (sym ((eq_iff w v).0 hit)) (a.0)
  | inr miss ↦ elem-AreVerdicts w vs a.1 (rw miss at h)
]

true_ne_false : true ≡ false → ⊥
true_ne_false h = cc

no_breach :
    (beacons : List Beacon) (axes : List String)
    → no_axes (breached beacons axes) ≡ true
    → All (λ b. boundary_breaches b axes ≡ []) beacons
unfolding breached no_axes
no_breach [] axes h = tt
no_breach (b ∷ beacons) axes h = elim (List-cases (boundary_breaches b axes)) [
  | inl e ↦ (e, no_breach beacons axes (rw e at h))
  | inr (ax, more_axes, e) ↦ absurd (true_ne_false (sym (rw e at h)))
]

below_max :
    (beacons : List Beacon) (block : ℕ)
    → max_iri beacons < block
    → All (λ b. compute_iri b < block) beacons
unfolding max_iri
below_max [] block h = tt
below_max (b ∷ beacons) block h = (ground arith, below_max beacons block (ground arith))

laws-AreVerdicts :
    (p : ResponsePolicy)
    → ((kind : String) → elem (law_for p kind) verdicts ≡ true)
    → (beacons : List Beacon) → AreVerdicts (laws beacons p)
laws-AreVerdicts p known [] = tt
laws-AreVerdicts p known (b ∷ beacons) = (known (kind_of b), laws-AreVerdicts p known beacons)

All-rank_trans :
    (v w : String) (vs : List String)
    → rank v ≤ rank w
    → All (λ u. rank w ≤ rank u) vs
    → All (λ u. rank v ≤ rank u) vs
All-rank_trans v w [] h a = tt
All-rank_trans v w (u ∷ vs) h a = (omega (arith, h, a.0), All-rank_trans v w vs h a.1)

pub All-laws :
    (P : String → Type 0) (beacons : List Beacon) (p : ResponsePolicy)
    → All P (laws beacons p)
    → All (λ b. P (law_for p (kind_of b))) beacons
All-laws P [] p a = tt
All-laws P (b ∷ beacons) p a = (a.0, All-laws P beacons p a.1)

All-each :
    (p : ResponsePolicy) (verdict : String) (beacons : List Beacon)
    → All (λ b. boundary_breaches b p.boundary_axes ≡ []) beacons
    → All (λ b. compute_iri b < p.iri_block) beacons
    → All (λ b. rank verdict ≤ rank (law_for p (kind_of b))) beacons
    → All
        (λ b.
          (boundary_breaches b p.boundary_axes ≡ [])
          × (compute_iri b < p.iri_block)
          × (rank verdict ≤ rank (law_for p (kind_of b))))
        beacons
All-each p verdict [] a b c = tt
All-each p verdict (x ∷ beacons) a b c = ((a.0, b.0, c.0), All-each p verdict beacons a.1 b.1 c.1)

module _ (meet : List String → Option String) (is_meet : IsMeet meet) (p : ResponsePolicy)
    (valid : validate_policy p ≡ true) where
  -- What a decision on the beacons gives.
  abbrev pub Decides : Option Receipt → List Beacon → Type 0
  Decides decision beacons =
      (r : Receipt) × (decision ≡ some r)
      × ((Stops p beacons × IsEscalated r) ⊎ IsReasoned p beacons r)

  stop_Decides :
      (r : Receipt) (beacons : List Beacon)
      → Stops p beacons
      → IsEscalated r
      → Decides (some r) beacons
  stop_Decides r beacons why is_stop = (r, refl, inl (why, is_stop))

  reasoned-Decides :
      (primary b : Beacon) (rest : List Beacon) (ev : String)
      → All (λ c. boundary_breaches c p.boundary_axes ≡ []) (b ∷ rest)
      → All (λ c. compute_iri c < p.iri_block) (b ∷ rest)
      → compose_evidence (b ∷ rest) ≡ some ev
      → Decides (reasoned meet primary (b ∷ rest) p ev) (b ∷ rest)
  unfolding reasoned effective_law compose_receipt
  reasoned-Decides primary b rest ev clear low e =
      let known = (validate_policy-known p valid).0 in
      let all_laws = laws-AreVerdicts p known (b ∷ rest) in
      let (law, e1, in_laws, least) = is_meet (law_for p (kind_of b)) (laws rest p) all_laws in
      let law_ok = elem-AreVerdicts law (laws (b ∷ rest) p) all_laws in_laws in
      let ev_ok = compose_evidence-verdict (b ∷ rest) ev e in
      let (verdict, e2, in_two, (below_law, (below_ev, u))) =
        is_meet law (ev ∷ []) (law_ok, (ev_ok, tt)) in
      (
        compose_receipt primary (b ∷ rest) (some verdict) (action_for p verdict),
        rw (e1, e2) refl,
        inr (record {
          verdict = verdict;
          evidence = ev;
          reached = refl;
          acts = refl;
          composed = e;
          below_evidence = below_ev;
          each = All-each p verdict (b ∷ rest) clear low (
              All-laws (λ u. rank verdict ≤ rank u) (b ∷ rest) p
                (All-rank_trans verdict law (laws (b ∷ rest) p) below_law least));
        }),
      )

  -- If `meet` is the least of its verdicts and the policy is valid, then a decision on one or more
  -- beacons always returns a receipt. Either a gate stops the beacons (a breach, an identity risk
  -- at or above the block, or no evidence), and the receipt escalates to a human without a verdict;
  -- or no beacon has a breach or a risk that high, the verdict is at most the law of every beacon's
  -- kind and at most the composed evidence, and the action is the policy's for the verdict.
  pub decide_composed-Decides :
      (b : Beacon) (rest : List Beacon) → Decides (decide_composed meet p b rest) (b ∷ rest)
  unfolding decide_composed escalate compose_receipt
  decide_composed-Decides b rest =
      let beacons = b ∷ rest in
      let stop = escalate (primary_from b rest) beacons in
      let stopped = λ (why : Stops p beacons). stop_Decides stop beacons why (refl, refl) in
      let is_same = λ (d : Option Receipt) (e : decide_composed meet p b rest ≡ d).
        subst (λ x. Decides x beacons) (sym e) in
      elim (Bool-cases (no_axes (breached beacons p.boundary_axes))) [
        | inr breach ↦ is_same (some stop) (rw breach refl) (stopped (inl breach))
        | inl clear ↦ elim (Bool-cases (leb p.iri_block (max_iri beacons))) [
          | inl risky ↦
              is_same (some stop) (rw (clear, risky) refl) (stopped (inr (inl (ground arith))))
          | inr low ↦ elim (Option-cases (compose_evidence beacons)) [
            | inl nothing ↦
                is_same (some stop) (rw (clear, low, nothing) refl) (stopped (inr (inr nothing)))
            | inr (ev, e) ↦
                is_same (reasoned meet (primary_from b rest) beacons p ev) (rw (clear, low, e) refl)
                  (reasoned-Decides (primary_from b rest) b rest ev
                    (no_breach beacons p.boundary_axes clear)
                    (below_max beacons p.iri_block (ground arith)) e)
          ]
        ]
      ]
