-- ===== src/Propagation/Cascade/Correct.antt =====
-- What a cascade holds: every repository once, soundly and completely up to the depth limit.
use socio_workspace.Base.{
  ℕ, ◌+◌, ◌≤◌, ◌<◌, ◌≡◌, ◌⊎◌, inl, inr, refl, ap, sym, ◌∙◌, subst, some, List, [], ◌∷◌, map, String,
  leb, leb→le, length, arith, Bool-cases, All,
}
use socio_workspace.Propagation.{elem, Engine, Target, dependents_of, get_rule}
use socio_workspace.Propagation.Cascade.{
  Step, Pending, Walk, pending, offer_all, expand, edge_ends, start, derived_step, seeds,
  sort_steps, compute_cascade, depth_limit, seed_step, named, seed_targets, rule_id,
}
use socio_workspace.Propagation.Cascade.Loop.{AllIn, AllIn-self, loop_rule, work-start}
use socio_workspace.Propagation.Cascade.Invariant.{
  Distinct, repos, Reached, seed, next, In, All-map, Settled, Inv, Inv-offer_all, visited-offer_all,
  AllIn-offer_all,
}
use socio_workspace.Propagation.Cascade.Sort.{
  IsSorted, IsSorted-sort_steps, All-sort_steps, Distinct-sort_steps, elem-sort_steps,
  AllIn-sort_steps,
}

repos-derived : (p : Pending) (deps : List String) → repos (map (derived_step p) deps) ≡ deps
unfolding derived_step
repos-derived p [] = refl
repos-derived p (x ∷ deps) = ap (λ l. x ∷ l) (repos-derived p deps)

module _ (e : Engine) (repo : String) (limit : ℕ) where
  abbrev Never : Step → Type 0
  Never s = ⊥

  -- The steps of the dependents are reached.
  Reached-derived :
      (p : Pending) (deps : List String)
      → Reached e repo limit p.repo p.depth
      → p.depth < limit
      → AllIn (dependents_of e p.repo) deps
      → All (λ s. Reached e repo limit s.repo s.depth) (map (derived_step p) deps)
  unfolding derived_step
  Reached-derived p [] r l h = tt
  Reached-derived p (x ∷ deps) r l h = (next r l h.0 refl, Reached-derived p deps r l h.1)

  -- Taking `p` off the queue leaves only its own steps unsettled.
  Inv-pop :
      (w : Walk) (p : Pending) (rest : List Pending)
      → w.queue ≡ p ∷ rest
      → Inv e repo limit Never w
      → Inv e repo limit (λ s. pending s ≡ p) (record w { queue = rest })
  Inv-pop w p rest eq v = record {
    noted = v.noted;
    distinct = v.distinct;
    sound = v.sound;
    queued = (subst (All (λ p. Reached e repo limit p.repo p.depth)) eq v.queued).1;
    settled = All-map unsettle w.results v.settled;
  }
    where
      unsettle :
          (s : Step)
          → Never s ⊎ Settled e repo limit w s
          → (pending s ≡ p) ⊎ Settled e repo limit (record w { queue = rest }) s
      unsettle s (inl x) = absurd x
      unsettle s (inr (inl q)) = elim (subst (In (pending s)) eq q) [
        | inl same ↦ inl same
        | inr more ↦ inr (inl more)
      ]
      unsettle s (inr (inr h)) = inr (inr h)

  -- Its steps are settled once its depth is at the limit or its dependents are visited.
  Inv-settle :
      (w : Walk) (p : Pending)
      → (limit ≤ p.depth) ⊎ AllIn w.visited (dependents_of e p.repo)
      → Inv e repo limit (λ s. pending s ≡ p) w
      → Inv e repo limit Never w
  Inv-settle w p h v = record {
    noted = v.noted;
    distinct = v.distinct;
    sound = v.sound;
    queued = v.queued;
    settled = All-map settle w.results v.settled;
  }
    where
      settle :
          (s : Step)
          → (pending s ≡ p) ⊎ Settled e repo limit w s
          → Never s ⊎ Settled e repo limit w s
      settle s (inl same) = inr (
          inr (
            subst (λ q. (limit ≤ q.depth) ⊎ AllIn w.visited (dependents_of e q.repo)) (sym same) h))
      settle s (inr h) = inr h

  Inv-expand :
      (w : Walk) (p : Pending) (rest : List Pending)
      → w.queue ≡ p ∷ rest
      → Inv e repo limit Never w
      → Inv e repo limit Never (expand e limit p (record w { queue = rest }))
  unfolding expand
  Inv-expand w p rest eq v =
      let w1 = record w { queue = rest } in
      let popped = Inv-pop w p rest eq v in
      let reached = (subst (All (λ p. Reached e repo limit p.repo p.depth)) eq v.queued).0 in
      let deps = dependents_of e p.repo in
      elim (Bool-cases (leb limit p.depth)) [
        | inl at_limit ↦ rw at_limit (Inv-settle w1 p (inl (leb→le limit p.depth at_limit)) popped)
        | inr below ↦
            let steps = map (derived_step p) deps in
            rw below (
              Inv-settle (offer_all steps w1) p
                (inr (
                  subst (AllIn (offer_all steps w1).visited) (repos-derived p deps)
                    (AllIn-offer_all steps w1)))
                (Inv-offer_all e repo limit (λ s. pending s ≡ p) steps w1
                  (Reached-derived p deps reached (ground arith) (AllIn-self deps)) popped))
      ]

  Reached-seeds :
      (steps : List Step)
      → AllIn (repos (seeds e repo)) (repos steps)
      → All (λ s. s.depth ≡ 1) steps
      → All (λ s. Reached e repo limit s.repo s.depth) steps
  Reached-seeds [] h d = tt
  Reached-seeds (s ∷ steps) h d = (seed h.0 d.0, Reached-seeds steps h.1 d.1)

  depth-seeds :
      (id : String) (targets : List Target) → All (λ s. s.depth ≡ 1) (map (seed_step id) targets)
  unfolding seed_step
  depth-seeds id [] = tt
  depth-seeds id (t ∷ targets) = (refl, depth-seeds id targets)

  Inv-start : Inv e repo limit Never (start e repo)
  unfolding start elem
  Inv-start =
      let w : Walk = record { visited = repo ∷ []; queue = []; results = [] } in
      Inv-offer_all e repo limit Never (seeds e repo) w
        (Reached-seeds (seeds e repo) (AllIn-self (repos (seeds e repo))) ones)
        (record { noted = refl; distinct = (refl, tt); sound = tt; queued = tt; settled = tt })
    where
      ones : All (λ s. s.depth ≡ 1) (seeds e repo)
      ones =
          unfold seeds in
          depth-seeds (rule_id (get_rule e.rules repo)) (named (seed_targets e repo))

-- The steps of a cascade from `repo` to the depth `limit`.
pub record IsCascade (e : Engine) (repo : String) (limit : ℕ) (steps : List Step) : Type 0 where
  -- no repository twice, and the changed one not at all
  pub distinct : Distinct (repo ∷ repos steps)
  -- each is a seed, or a dependent of a step of one less depth, below the limit
  pub sound : All (λ s. Reached e repo limit s.repo s.depth) steps
  -- every seed is in
  pub seeded : AllIn (repo ∷ repos steps) (repos (seeds e repo))
  -- so is every dependent of a step below the limit
  pub closed :
      All (λ s. (limit ≤ s.depth) ⊎ AllIn (repo ∷ repos steps) (dependents_of e s.repo)) steps
  -- in the order of the depth
  pub sorted : IsSorted steps

module _ (e : Engine) (repo : String) (limit : ℕ) where
  seeded_walk : AllIn (start e repo).visited (repos (seeds e repo))
  unfolding start
  seeded_walk =
      AllIn-offer_all (seeds e repo) (record { visited = repo ∷ []; queue = []; results = [] })

  -- The invariant that the loop keeps, with the seeds.
  record Full (w : Walk) : Type 0 where
    inv : Inv e repo limit (λ _. ⊥) w
    seeds_in : AllIn w.visited (repos (seeds e repo))

  AllIn-expand :
      (w : Walk) (p : Pending) (rest : List Pending) (xs : List String)
      → AllIn w.visited xs
      → AllIn (expand e limit p (record w { queue = rest })).visited xs
  unfolding expand
  AllIn-expand w p rest [] h = tt
  AllIn-expand w p rest (x ∷ xs) h = (
    ground (
      arith,
      visited-offer_all x (map (derived_step p) (dependents_of e p.repo))
          (record w { queue = rest }),
      h.0,
    ),
    AllIn-expand w p rest xs h.1,
  )

  IsCascade-sorted :
      (w : Walk) → w.queue ≡ [] → Full w → IsCascade e repo limit (sort_steps w.results)
  unfolding elem
  IsCascade-sorted w empty f =
      let noted = f.inv.noted in
      let apart : Distinct (repo ∷ repos w.results) = subst Distinct noted f.inv.distinct in
      record {
        distinct =
            (elem-sort_steps repo w.results ∙ apart.0, Distinct-sort_steps w.results apart.1);
        sound = All-sort_steps _ w.results f.inv.sound;
        seeded =
            AllIn-sort_steps repo w.results (repos (seeds e repo))
              (subst (λ v. AllIn v (repos (seeds e repo))) noted f.seeds_in);
        closed = All-sort_steps _ w.results (All-map close w.results f.inv.settled);
        sorted = IsSorted-sort_steps w.results;
      }
    where
      close :
          (s : Step)
          → ⊥ ⊎ Settled e repo limit w s
          → (limit ≤ s.depth) ⊎ AllIn (repo ∷ repos (sort_steps w.results)) (dependents_of e s.repo)
      close s (inl x) = absurd x
      close s (inr (inl q)) = absurd (subst (In (pending s)) empty q)
      close s (inr (inr (inl d))) = inl d
      close s (inr (inr (inr v))) = inr (
          AllIn-sort_steps repo w.results (dependents_of e s.repo)
            (subst (λ l. AllIn l (dependents_of e s.repo)) f.inv.noted v))

-- The cascade of a change is computed for every engine, repository and depth: the walk ends. Its
-- steps name no repository twice and never the changed one; each is a seed at depth one or a
-- dependent of a step of one less depth below the limit; every seed, and every dependent of a step
-- below the limit, is the changed repository or in the cascade; and the depths never fall.
pub compute_cascade-IsCascade :
    (e : Engine) (repo : String) (max_depth : ℕ)
    → (steps : List Step) × (compute_cascade e repo max_depth ≡ some steps)
      × IsCascade e repo (depth_limit (get_rule e.rules repo) max_depth) steps
unfolding compute_cascade
compute_cascade-IsCascade e repo max_depth =
    let limit = depth_limit (get_rule e.rules repo) max_depth in
    let fuel = length (edge_ends e.reverse_adjacency) + length (seeds e repo) + 1 in
    let (w, ends, empty, full) =
      loop_rule e limit (Full e repo limit)
        (λ w p rest eq f. record {
          inv = Inv-expand e repo limit w p rest eq f.inv;
          seeds_in = AllIn-expand e repo limit w p rest (repos (seeds e repo)) f.seeds_in;
        })
        fuel (start e repo) (work-start e repo)
        (record { inv = Inv-start e repo limit; seeds_in = seeded_walk e repo limit }) in
    (sort_steps w.results, rw ends, IsCascade-sorted e repo limit w empty full)
