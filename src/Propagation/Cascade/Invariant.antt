-- ===== src/Propagation/Cascade/Invariant.antt =====
-- The invariant of the walk: every repository once, reached by dependents, and its own dependents seen.
use socio_workspace.Base.{
  ℕ, ◌+◌, ◌≤◌, ◌<◌, ◌≡◌, ◌⊎◌, inl, inr, refl, ap, sym, ◌∙◌, true, false, List, [], ◌∷◌, ◌++◌, map,
  String, eq_iff, eq_refl, arith, Bool-cases, All, All-append,
}
use socio_workspace.Propagation.{elem, Engine, dependents_of}
use socio_workspace.Propagation.Cascade.{Step, Pending, Walk, pending, add, offer, offer_all, seeds}
use socio_workspace.Propagation.Cascade.Loop.{elem-append, AllIn}

-- No text stands twice.
abbrev pub Distinct : List String → Type 0
Distinct [] = Unit
Distinct (x ∷ xs) = (elem x xs ≡ false) × Distinct xs

abbrev pub repos : List Step → List String
repos steps = map (λ s. s.repo) steps

Distinct-append :
    (xs : List String) (y : String) → Distinct xs → elem y xs ≡ false → Distinct (xs ++ y ∷ [])
unfolding elem
Distinct-append [] y d h = (refl, tt)
Distinct-append (x ∷ xs) y d h = (
  ground (arith, elem-append x xs y, eq_iff x y, eq_iff y x),
  Distinct-append xs y d.1 (ground arith),
)

pub repos-append :
    (steps : List Step) (s : Step) → repos (steps ++ s ∷ []) ≡ repos steps ++ s.repo ∷ []
repos-append [] s = refl
repos-append (t ∷ steps) s = ap (λ l. t.repo ∷ l) (repos-append steps s)

-- A walk of dependents: from a seed at depth one, and on while the depth is below the limit.
pub data Reached (e : Engine) (repo : String) (limit : ℕ) : String → ℕ → Type 0 where
  seed :
      {r : String} {d : ℕ} → elem r (repos (seeds e repo)) ≡ true → d ≡ 1 → Reached e repo limit r d
  next :
      {p : String} {k : ℕ} {r : String} {d : ℕ}
      → Reached e repo limit p k
      → k < limit
      → elem r (dependents_of e p) ≡ true
      → d ≡ k + 1
      → Reached e repo limit r d

abbrev pub In : Pending → List Pending → Type 0
In p [] = ⊥
In p (q ∷ queue) = (p ≡ q) ⊎ In p queue

pub In-append : (p : Pending) (xs ys : List Pending) → In p xs → In p (xs ++ ys)
In-append p [] ys h = absurd h
In-append p (x ∷ xs) ys (inl e) = inl e
In-append p (x ∷ xs) ys (inr h) = inr (In-append p xs ys h)

pub In-last : (p : Pending) (xs : List Pending) → In p (xs ++ p ∷ [])
In-last p [] = inl refl
In-last p (x ∷ xs) = inr (In-last p xs)

elem-append_old :
    (x : String) (xs : List String) (y : String) → elem x xs ≡ true → elem x (xs ++ y ∷ []) ≡ true
elem-append_old x xs y h = ground (arith, elem-append x xs y)

AllIn-append :
    (v : List String) (y : String) (xs : List String) → AllIn v xs → AllIn (v ++ y ∷ []) xs
AllIn-append v y [] h = tt
AllIn-append v y (x ∷ xs) h = (elem-append_old x v y h.0, AllIn-append v y xs h.1)

pub All-map {ℓ κ μ} :
    {A : Type ℓ} {P : A → Type κ} {Q : A → Type μ}
    → ((a : A) → P a → Q a)
    → (xs : List A) → All P xs
    → All Q xs
All-map f [] h = tt
All-map f (x ∷ xs) h = (f x h.0, All-map f xs h.1)

module _ (e : Engine) (repo : String) (limit : ℕ) where
  -- A step waits in the queue, is at the limit, or has only visited dependents.
  abbrev pub Settled : Walk → Step → Type 0
  Settled w s =
      In (pending s) w.queue ⊎ ((limit ≤ s.depth) ⊎ AllIn w.visited (dependents_of e s.repo))

  -- The invariant, in which the steps of `X` may be unsettled.
  pub record Inv (X : Step → Type 0) (w : Walk) : Type 0 where
    pub noted : w.visited ≡ repo ∷ repos w.results
    pub distinct : Distinct w.visited
    pub sound : All (λ s. Reached e repo limit s.repo s.depth) w.results
    pub queued : All (λ p. Reached e repo limit p.repo p.depth) w.queue
    pub settled : All (λ s. X s ⊎ Settled w s) w.results

  Settled-add : (s : Step) (w : Walk) (t : Step) → Settled w t → Settled (add s w) t
  unfolding add
  Settled-add s w t (inl q) = inl (In-append (pending t) w.queue (pending s ∷ []) q)
  Settled-add s w t (inr (inl d)) = inr (inl d)
  Settled-add s w t (inr (inr v)) =
      inr (inr (AllIn-append w.visited s.repo (dependents_of e t.repo) v))

  Inv-add :
      (X : Step → Type 0) (s : Step) (w : Walk)
      → elem s.repo w.visited ≡ false
      → Reached e repo limit s.repo s.depth
      → Inv X w
      → Inv X (add s w)
  unfolding add
  Inv-add X s w new r v = record {
    noted =
        ap (λ l. l ++ s.repo ∷ []) v.noted ∙ ap (λ l. repo ∷ l) (sym (repos-append w.results s));
    distinct = Distinct-append w.visited s.repo v.distinct new;
    sound = All-append _ w.results (s ∷ []) v.sound (r, tt);
    queued = All-append _ w.queue (pending s ∷ []) v.queued (r, tt);
    settled =
        All-append _ w.results (s ∷ [])
          (All-map (λ t. elim [ inl x ↦ inl x | inr h ↦ inr (Settled-add s w t h) ]) w.results
            v.settled)
          (inr (inl (In-last (pending s) w.queue)), tt);
  }

  Inv-offer :
      (X : Step → Type 0) (s : Step) (w : Walk)
      → Reached e repo limit s.repo s.depth
      → Inv X w
      → Inv X (offer s w)
  unfolding offer
  Inv-offer X s w r v = elim (Bool-cases (elem s.repo w.visited)) [
    | inl old ↦ rw old v
    | inr new ↦ rw new (Inv-add X s w new r v)
  ]

  pub Inv-offer_all :
      (X : Step → Type 0) (steps : List Step) (w : Walk)
      → All (λ s. Reached e repo limit s.repo s.depth) steps
      → Inv X w
      → Inv X (offer_all steps w)
  unfolding offer_all
  Inv-offer_all X [] w r v = v
  Inv-offer_all X (s ∷ steps) w r v = Inv-offer_all X steps (offer s w) r.1 (Inv-offer X s w r.0 v)

visited-offer :
    (x : String) (s : Step) (w : Walk) → elem x w.visited ≡ true → elem x (offer s w).visited ≡ true
unfolding offer
visited-offer x s w h = ground (arith, elem-append x w.visited s.repo)

visited-offer_self : (s : Step) (w : Walk) → elem s.repo (offer s w).visited ≡ true
unfolding offer
visited-offer_self s w = ground (arith, elem-append s.repo w.visited s.repo, eq_refl s.repo)

pub visited-offer_all :
    (x : String) (steps : List Step) (w : Walk)
    → elem x w.visited ≡ true
    → elem x (offer_all steps w).visited ≡ true
unfolding offer_all
visited-offer_all x [] w h = h
visited-offer_all x (s ∷ steps) w h = visited-offer_all x steps (offer s w) (visited-offer x s w h)

-- After the offers, every offered repository is visited.
pub AllIn-offer_all :
    (steps : List Step) (w : Walk) → AllIn (offer_all steps w).visited (repos steps)
unfolding offer_all
AllIn-offer_all [] w = tt
AllIn-offer_all (s ∷ steps) w = (
  visited-offer_all s.repo steps (offer s w) (visited-offer_self s w),
  AllIn-offer_all steps (offer s w),
)
