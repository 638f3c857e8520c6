-- ===== src/Propagation/Cascade/Loop.antt =====
-- The walk ends within its fuel.
use socio_workspace.Base.{
  ℕ, zero, suc, ◌+◌, ◌≤◌, ◌<◌, ◌≡◌, inl, inr, refl, ap, true, false, some, List, [], ◌∷◌, ◌++◌, map,
  String, str_eq, eq_iff, eq_refl, length, length-append, arith, if◌then◌else◌, Bool-cases,
  List-cases, All,
}
use socio_workspace.Base.Dict
use socio_workspace.Base.Dict.{Dict}
use socio_workspace.Propagation.{elem, Engine, dependents_of, list_or_empty}
use socio_workspace.Propagation.Cascade.{
  Step, Pending, Walk, pending, offer, offer_all, expand, loop, edge_ends, start, derived_step,
  seeds,
}

pub elem-append :
    (x : String) (xs : List String) (y : String)
    → elem x (xs ++ y ∷ []) ≡ (if str_eq x y then true else elem x xs)
unfolding elem
elem-append x [] y = refl
elem-append x (z ∷ xs) y = ground (arith, elem-append x xs y, eq_iff x z)

-- The entries of `ends` that were not visited.
unfoldable pub unvisited : List String → List String → ℕ
unvisited [] v = 0
unvisited (x ∷ ends) v = (if elem x v then 0 else 1) + unvisited ends v

unvisited-append-le :
    (ends v : List String) (y : String) → unvisited ends (v ++ y ∷ []) ≤ unvisited ends v
unfolding unvisited
unvisited-append-le [] v y = omega arith
unvisited-append-le (x ∷ ends) v y = ground (arith, elem-append x v y, unvisited-append-le ends v y)

-- Visiting an entry of `ends` lowers their number.
unvisited-append-lt :
    (ends v : List String) (y : String)
    → elem y ends ≡ true
    → elem y v ≡ false
    → unvisited ends (v ++ y ∷ []) < unvisited ends v
unfolding unvisited elem
unvisited-append-lt [] v y m n = cc
unvisited-append-lt (x ∷ ends) v y m n = ground (
  arith,
  elem-append x v y,
  unvisited-append-le ends v y,
  unvisited-append-lt ends v y,
  eq_iff y x,
)

unvisited-le-length : (ends v : List String) → unvisited ends v ≤ length ends
unfolding unvisited
unvisited-le-length [] v = omega arith
unvisited-le-length (x ∷ ends) v = ground (arith, unvisited-le-length ends v)

elem-append_left : (x : String) (xs ys : List String) → elem x xs ≡ true → elem x (xs ++ ys) ≡ true
unfolding elem
elem-append_left x [] ys h = cc
elem-append_left x (z ∷ xs) ys h = ground (arith, elem-append_left x xs ys)

elem-append_right : (x : String) (xs ys : List String) → elem x ys ≡ true → elem x (xs ++ ys) ≡ true
unfolding elem
elem-append_right x [] ys h = h
elem-append_right x (z ∷ xs) ys h = ground (arith, elem-append_right x xs ys h)

-- Every element of `xs` is in `ys`.
abbrev pub AllIn : List String → List String → Type 0
AllIn ys xs = All (λ x. elem x ys ≡ true) xs

AllIn-weaken :
    (ys ys' : List String)
    → ((x : String) → elem x ys ≡ true → elem x ys' ≡ true)
    → (xs : List String) → AllIn ys xs
    → AllIn ys' xs
AllIn-weaken ys ys' f [] h = tt
AllIn-weaken ys ys' f (x ∷ xs) h = (f x h.0, AllIn-weaken ys ys' f xs h.1)

pub AllIn-self : (xs : List String) → AllIn xs xs
unfolding elem
AllIn-self [] = tt
AllIn-self (x ∷ xs) =
    (rw eq_refl, AllIn-weaken xs (x ∷ xs) (λ y h. ground (arith)) xs (AllIn-self xs))

AllIn-get :
    (d : Dict (List String)) (k : String) → AllIn (edge_ends d) (list_or_empty (Dict.get d k))
unfolding edge_ends list_or_empty Dict.get
AllIn-get [] k = tt
AllIn-get ((j, deps) ∷ d) k = elim (Bool-cases (str_eq j k)) [
  | inl found ↦ rw found (
      AllIn-weaken deps (deps ++ edge_ends d) (λ x. elem-append_left x deps (edge_ends d)) deps
        (AllIn-self deps))
  | inr other ↦ rw other (
      AllIn-weaken (edge_ends d) (deps ++ edge_ends d) (λ x. elem-append_right x deps (edge_ends d))
        (list_or_empty (Dict.get d k)) (AllIn-get d k))
]

-- The dependents of a repository are ends of edges.
AllIn-dependents :
    (e : Engine) (repo : String) → AllIn (edge_ends e.reverse_adjacency) (dependents_of e repo)
unfolding dependents_of
AllIn-dependents e repo = AllIn-get e.reverse_adjacency repo

abbrev pub work : List String → Walk → ℕ
work ends w = unvisited ends w.visited + length w.queue

work-offer-le :
    (ends : List String) (s : Step) (w : Walk)
    → elem s.repo ends ≡ true
    → work ends (offer s w) ≤ work ends w
unfolding offer
work-offer-le ends s w m =
    ground
      (arith, unvisited-append-lt ends w.visited s.repo m, length-append w.queue (pending s ∷ []))

work-offer-lt-two :
    (ends : List String) (s : Step) (w : Walk) → work ends (offer s w) ≤ work ends w + 1
unfolding offer
work-offer-lt-two ends s w =
    ground
      (arith, unvisited-append-le ends w.visited s.repo, length-append w.queue (pending s ∷ []))

work-offer_all-seeds :
    (ends : List String) (steps : List Step) (w : Walk)
    → work ends (offer_all steps w) ≤ work ends w + length steps
unfolding offer_all
work-offer_all-seeds ends [] w = omega arith
work-offer_all-seeds ends (s ∷ steps) w =
    omega (arith, work-offer-lt-two ends s w, work-offer_all-seeds ends steps (offer s w))

work-offer_all :
    (ends : List String) (p : Pending) (deps : List String) (w : Walk)
    → AllIn ends deps
    → work ends (offer_all (map (derived_step p) deps) w) ≤ work ends w
unfolding offer_all derived_step
work-offer_all ends p [] w h = omega arith
work-offer_all ends p (x ∷ deps) w h = omega (
  arith,
  work-offer-le ends (derived_step p x) w h.0,
  work-offer_all ends p deps (offer (derived_step p x) w) h.1,
)

work-expand :
    (e : Engine) (limit : ℕ) (p : Pending) (w : Walk)
    → let ends = edge_ends e.reverse_adjacency in work ends (expand e limit p w) ≤ work ends w
unfolding expand
work-expand e limit p w =
    let ends = edge_ends e.reverse_adjacency in
    let h = work-offer_all ends p (dependents_of e p.repo) w (AllIn-dependents e p.repo) in
    ground arith

-- The loop ends, and what each round keeps holds at its end, where the queue is empty.
pub loop_rule {ℓ} :
    (e : Engine) (limit : ℕ) (P : Walk → Type ℓ)
    → ((w : Walk) (p : Pending) (rest : List Pending)
        → w.queue ≡ p ∷ rest
        → P w
        → P (expand e limit p (record w { queue = rest })))
    → (fuel : ℕ) (w : Walk) → work (edge_ends e.reverse_adjacency) w < fuel
    → P w
    → (w' : Walk) × (loop e limit fuel w ≡ some w') × (w'.queue ≡ []) × P w'
unfolding loop
loop_rule e limit P keep zero w h p = absurd (omega arith)
loop_rule e limit P keep (suc fuel) w h q = elim (List-cases w.queue) [
  | inl empty ↦ (w, simp (empty, loop), empty, q)
  | inr (p, rest, eq) ↦
      let w1 = record w { queue = rest } in
      let less = work-expand e limit p w1 in
      let (w', ends, empty, q') =
        loop_rule e limit P keep fuel (expand e limit p w1) (omega (arith, ap length eq))
          (keep w p rest eq q) in
      (w', rw (eq, loop) ends, empty, q')
]

pub work-start :
    (e : Engine) (repo : String)
    → work (edge_ends e.reverse_adjacency) (start e repo)
      < length (edge_ends e.reverse_adjacency) + length (seeds e repo) + 1
unfolding start
work-start e repo =
    let ends = edge_ends e.reverse_adjacency in
    let w : Walk = record { visited = repo ∷ []; queue = []; results = [] } in
    omega (arith, work-offer_all-seeds ends (seeds e repo) w, unvisited-le-length ends w.visited)
