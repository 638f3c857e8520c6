-- ===== src/Propagation/Cascade/Sort.antt =====
-- The final sort by depth.
use socio_workspace.Base.{
  ℕ, ◌≤◌, ◌≡◌, inl, inr, refl, ◌∙◌, false, List, [], ◌∷◌, String, eq_iff, leb, leb→le, arith,
  Bool-cases, All,
}
use socio_workspace.Propagation.{elem}
use socio_workspace.Propagation.Cascade.{Step, insert_step, sort_steps}
use socio_workspace.Propagation.Cascade.Loop.{AllIn}
use socio_workspace.Propagation.Cascade.Invariant.{Distinct, repos}

-- Each step is at most as deep as the next.
abbrev pub IsSorted : List Step → Type 0
IsSorted [] = Unit
IsSorted (s ∷ steps) = All (λ t. s.depth ≤ t.depth) steps × IsSorted steps

module _ {ℓ} (P : Step → Type ℓ) where
  All-insert_step : (s : Step) (steps : List Step) → P s → All P steps → All P (insert_step s steps)
  unfolding insert_step
  All-insert_step s [] p h = (p, tt)
  All-insert_step s (t ∷ steps) p h = elim (Bool-cases (leb s.depth t.depth)) [
    | inl first ↦ rw first (p, h)
    | inr later ↦ rw later (h.0, All-insert_step s steps p h.1)
  ]

  pub All-sort_steps : (steps : List Step) → All P steps → All P (sort_steps steps)
  unfolding sort_steps
  All-sort_steps [] h = tt
  All-sort_steps (s ∷ steps) h = All-insert_step s (sort_steps steps) h.0 (All-sort_steps steps h.1)

All-le_trans :
    (n m : ℕ) (steps : List Step)
    → n ≤ m
    → All (λ t. m ≤ t.depth) steps
    → All (λ t. n ≤ t.depth) steps
All-le_trans n m [] h a = tt
All-le_trans n m (t ∷ steps) h a = (omega (arith, a.0), All-le_trans n m steps h a.1)

IsSorted-insert_step :
    (s : Step) (steps : List Step) → IsSorted steps → IsSorted (insert_step s steps)
unfolding insert_step
IsSorted-insert_step s [] h = (tt, tt)
IsSorted-insert_step s (t ∷ steps) h = elim (Bool-cases (leb s.depth t.depth)) [
  | inl first ↦
      let le = leb→le s.depth t.depth first in
      rw first ((le, All-le_trans s.depth t.depth steps le h.0), h)
  | inr later ↦ rw later (
    All-insert_step (λ u. t.depth ≤ u.depth) s steps (ground arith) h.0,
    IsSorted-insert_step s steps h.1,
  )
]

pub IsSorted-sort_steps : (steps : List Step) → IsSorted (sort_steps steps)
unfolding sort_steps
IsSorted-sort_steps [] = tt
IsSorted-sort_steps (s ∷ steps) =
    IsSorted-insert_step s (sort_steps steps) (IsSorted-sort_steps steps)

elem-insert_step :
    (x : String) (s : Step) (steps : List Step)
    → elem x (repos (insert_step s steps)) ≡ elem x (s.repo ∷ repos steps)
unfolding insert_step elem
elem-insert_step x s [] = refl
elem-insert_step x s (t ∷ steps) = ground (arith, elem-insert_step x s steps)

-- The sort keeps the repositories.
pub elem-sort_steps :
    (x : String) (steps : List Step) → elem x (repos (sort_steps steps)) ≡ elem x (repos steps)
unfolding sort_steps elem
elem-sort_steps x [] = refl
elem-sort_steps x (s ∷ steps) =
    ground (arith, elem-insert_step x s (sort_steps steps), elem-sort_steps x steps)

Distinct-insert_step :
    (s : Step) (steps : List Step)
    → elem s.repo (repos steps) ≡ false
    → Distinct (repos steps)
    → Distinct (repos (insert_step s steps))
unfolding insert_step elem
Distinct-insert_step s [] n d = (refl, tt)
Distinct-insert_step s (t ∷ steps) n d = elim (Bool-cases (leb s.depth t.depth)) [
  | inl first ↦ rw first (n, d)
  | inr later ↦ rw later (
    elem-insert_step t.repo s steps
        ∙ ground (arith, eq_iff t.repo s.repo, eq_iff s.repo t.repo, d.0),
    Distinct-insert_step s steps (ground arith) d.1,
  )
]

pub Distinct-sort_steps :
    (steps : List Step) → Distinct (repos steps) → Distinct (repos (sort_steps steps))
unfolding sort_steps
Distinct-sort_steps [] d = tt
Distinct-sort_steps (s ∷ steps) d =
    Distinct-insert_step s (sort_steps steps) (elem-sort_steps s.repo steps ∙ d.0)
      (Distinct-sort_steps steps d.1)

-- So a list of repositories lies in the visited ones before and after the sort.
pub AllIn-sort_steps :
    (repo : String) (steps : List Step) (xs : List String)
    → AllIn (repo ∷ repos steps) xs
    → AllIn (repo ∷ repos (sort_steps steps)) xs
unfolding elem
AllIn-sort_steps repo steps [] h = tt
AllIn-sort_steps repo steps (x ∷ xs) h =
    (ground (arith, elem-sort_steps x steps, h.0), AllIn-sort_steps repo steps xs h.1)
