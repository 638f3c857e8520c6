-- ===== src/Learning/Advice.antt =====
-- Which classes `analyze` of automation/learning.py recommends to demote, and how far.
use socio_workspace.Base.{
  ℕ, suc, ◌*◌, ◌≤◌, ◌<◌, ◌≡◌, inl, inr, refl, sym, ap, ◌∙◌, Bool, false, Option, none, some, List,
  [], ◌∷◌, map, String, str_eq, eq_iff, eq_refl, arith, Bool-cases, All,
}
use socio_workspace.Base.Dict.{Dict, get, has, IsUnique, get-absent}
use socio_workspace.Propagation.{elem}
use socio_workspace.Policy.{ResponsePolicy, law_for, or_else}
use socio_workspace.Responder.{Receipt}
use socio_workspace.Responder.Verdict.{rank}
use socio_workspace.DurableQueue.{Directory, peek_all}
use socio_workspace.Learning.{
  Stats, no_stats, Recommendation, add_some, recommend, recommend_each, analyze,
}
use socio_workspace.Learning.Counts.{
  attempts_of, failures_of, stats_of, sorted_stats, sorted_stats-IsUnique, attempts-sorted_stats,
  failures-sorted_stats,
}
use socio_workspace.Learning.Demoted.{is_due, IsDemotion, IsAdvice, recommend-IsAdvice}

abbrev pub kinds : List Recommendation → List String
kinds recs = map (λ rec. rec.kind_class) recs

kept :
    (items full : Dict Stats)
    → IsUnique items
    → ((k : String) (s : Stats) → get items k ≡ some s → get full k ≡ some s)
    → All (λ item. get full item.0 ≡ some item.1) items
unfolding get
kept [] full u h = tt
kept ((k, s) ∷ items) full u h = (
  h k s (rw (eq_refl k) refl),
  kept items full u.1 (λ j t e. h j t (elim (Bool-cases (str_eq k j)) [
    | inl hit ↦
        absurd (none_some (sym (get-absent items k u.0) ∙ ap (get items) ((eq_iff k j).0 hit) ∙ e))
    | inr miss ↦ rw miss e
  ])),
)
  where
    none_some : {t : Stats} → none ≡ some t → ⊥
    none_some e = cc

module _ (p : ResponsePolicy) (min_samples threshold : ℕ) (full : Dict Stats) where
  -- The items of the recommendations.
  abbrev Stands : Recommendation → Type 0
  Stands rec =
      (rec.attempts ≡ (stats_of full rec.kind_class).attempts)
      × (rec.failures ≡ (stats_of full rec.kind_class).failures)
      × (min_samples ≤ rec.attempts)
      × (threshold * rec.attempts ≤ 10000 * rec.failures)
      × (rec.current_law ≡ law_for p rec.kind_class)
      × (suc (rank rec.recommended_law) ≡ rank rec.current_law)

  add_some-Stand :
      (kind : String) (s : Stats) (o : Option Recommendation) (recs : List Recommendation)
      → get full kind ≡ some s
      → IsAdvice p min_samples threshold kind s o
      → All Stands recs
      → All Stands (add_some o recs)
  unfolding add_some
  add_some-Stand kind s none recs e h a = a
  add_some-Stand kind s (some rec) recs e (d, k, x, y, enough, failing, law, down) a =
      let found : stats_of full rec.kind_class ≡ s =
        ap (stats_of full) k ∙ ap (or_else no_stats) e in
      (
        (
          x ∙ sym (ap (λ t. t.attempts) found),
          y ∙ sym (ap (λ t. t.failures) found),
          rw x enough,
          rw (x, y) failing,
          law ∙ ap (law_for p) (sym k),
          down,
        ),
        a,
      )

  recommend_each-Stand :
      (items : Dict Stats)
      → All (λ item. get full item.0 ≡ some item.1) items
      → All Stands (recommend_each p min_samples threshold items)
  unfolding recommend_each
  recommend_each-Stand [] h = tt
  recommend_each-Stand ((kind, s) ∷ items) h =
      add_some-Stand kind s (recommend p min_samples threshold kind s)
        (recommend_each p min_samples threshold items) h.0
        (recommend-IsAdvice p min_samples threshold kind s) (recommend_each-Stand items h.1)

module _ (p : ResponsePolicy) (min_samples threshold : ℕ) (some_needed : 0 < min_samples) where
  -- Whether a class is due by the items.
  abbrev due_in : Dict Stats → String → Bool
  due_in items k =
      is_due p min_samples threshold k (stats_of items k).attempts (stats_of items k).failures

  due_in-absent : (items : Dict Stats) (k : String) → get items k ≡ none → due_in items k ≡ false
  unfolding is_due
  due_in-absent items k e = rw e (ground (arith, some_needed))

  add_some-kinds :
      (kind : String) (s : Stats) (items : Dict Stats) (o : Option Recommendation)
      (recs : List Recommendation) (k : String)
      → has items kind ≡ false
      → IsAdvice p min_samples threshold kind s o
      → elem k (kinds recs) ≡ due_in items k
      → elem k (kinds (add_some o recs)) ≡ due_in ((kind, s) ∷ items) k
  unfolding add_some get elem
  add_some-kinds kind s items none recs k u h e = elim (Bool-cases (str_eq kind k)) [
    | inl hit ↦
        let same = (eq_iff kind k).0 hit in
        let absent = get-absent items k (ap (has items) (sym same) ∙ u) in
        rw hit (
          e
          ∙ due_in-absent items k absent
          ∙ sym (ap (λ j. is_due p min_samples threshold j s.attempts s.failures) (sym same) ∙ h))
    | inr miss ↦ rw miss e
  ]
  add_some-kinds kind s items (some rec) recs k u h e = elim (Bool-cases (str_eq kind k)) [
    | inl hit ↦
        let same = (eq_iff kind k).0 hit in
        rw (hit, h.1, same, eq_refl k)
          (sym (ap (λ j. is_due p min_samples threshold j s.attempts s.failures) (sym same) ∙ h.0))
    | inr miss ↦
        let differ : str_eq k kind ≡ false = ground (arith, eq_iff kind k, eq_iff k kind, miss) in
        rw (h.1, differ, miss) e
  ]

  recommend_each-kinds :
      (items : Dict Stats) (k : String)
      → IsUnique items
      → elem k (kinds (recommend_each p min_samples threshold items)) ≡ due_in items k
  unfolding recommend_each elem get
  recommend_each-kinds [] k u = sym (due_in-absent [] k refl)
  recommend_each-kinds ((kind, s) ∷ items) k u =
      add_some-kinds kind s items (recommend p min_samples threshold kind s)
        (recommend_each p min_samples threshold items) k u.0
        (recommend-IsAdvice p min_samples threshold kind s) (recommend_each-kinds items k u.1)

-- What the recommendations on a list of receipts are: each is right, and the classes are those that
-- are due.
pub record Advises (p : ResponsePolicy) (min_samples threshold : ℕ) (decisions : List Receipt)
    (recs : List Recommendation) : Type 0 where
  pub right : All (IsDemotion p min_samples threshold decisions) recs
  pub due :
      (k : String)
      → elem k (kinds recs)
        ≡ is_due p min_samples threshold k (attempts_of k decisions) (failures_of k decisions)

module _ (p : ResponsePolicy) (min_samples threshold : ℕ) (decisions : List Receipt) where
  Stand-IsDemotion :
      (recs : List Recommendation)
      → All (Stands p min_samples threshold (sorted_stats decisions)) recs
      → All (IsDemotion p min_samples threshold decisions) recs
  Stand-IsDemotion [] a = tt
  Stand-IsDemotion (rec ∷ recs) ((x, y, enough, failing, law, down), a) = (
    record {
      attempts = x ∙ attempts-sorted_stats decisions rec.kind_class;
      failures = y ∙ failures-sorted_stats decisions rec.kind_class;
      enough = enough;
      failing = failing;
      current = law;
      one_down = down;
    },
    Stand-IsDemotion recs a,
  )

-- If at least one attempt is needed, then the analysis of any directory of receipts recommends
-- exactly the classes that are due: whose attempts are enough, of which the share that failed
-- reaches the threshold, and whose law is a verdict above the weakest. Each recommendation carries
-- the class's attempts and failures, its law in the policy, and the verdict one place below it: none
-- is a promotion.
pub analyze-Advises :
    (p : ResponsePolicy) (min_samples threshold : ℕ) (loads : String → Option Receipt)
    (d : Directory)
    → 0 < min_samples
    → Advises p min_samples threshold (peek_all loads d) (analyze p min_samples threshold loads d)
unfolding analyze
analyze-Advises p min_samples threshold loads d h =
    let decisions = peek_all loads d in
    let stats = sorted_stats decisions in
    let u = sorted_stats-IsUnique decisions in
    record {
      right =
          Stand-IsDemotion p min_samples threshold decisions
            (recommend_each p min_samples threshold stats)
            (recommend_each-Stand p min_samples threshold stats stats
              (kept stats stats u (λ k s e. e)));
      due = λ k.
          recommend_each-kinds p min_samples threshold h stats k u
          ∙ ap (λ n. is_due p min_samples threshold k n (stats_of stats k).failures)
              (attempts-sorted_stats decisions k)
          ∙ ap (is_due p min_samples threshold k (attempts_of k decisions))
              (failures-sorted_stats decisions k);
    }
