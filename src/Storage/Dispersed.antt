-- ===== src/Storage/Dispersed.antt =====
-- Where `disperse_shards` of automation/storage_resilience.py puts the shards of a leaf.
use socio_workspace.Base.{
  ℕ, zero, suc, ◌+◌, ◌*◌, ◌/◌, ◌≤◌, ◌<◌, ◌≡◌, inl, inr, refl, sym, ◌∙◌, ap, subst, Bool, true,
  false, some, List, [], ◌∷◌, String, str_eq, eq_iff, ltb, ◌==◌, leb, arith, if◌then◌else◌,
  Bool-cases, length, get_elem?, some-inj,
}
use native.Mathlib.Nat.{div-mul-le_self, mod-eq_of_lt, mul_comm}
use socio_workspace.Base.Dict.{Dict, put, has, has-put, IsUnique, IsUnique-put}
use socio_workspace.Propagation.{elem}
use socio_workspace.MeshTopology.{built, value_error, zero_division, out_of_fuel, max}
use socio_workspace.MeshTopology.Build.{build_tree-builds}
use socio_workspace.Storage.{
  Placement, rs_n, node_at, assign, place_shards, disperse_shards, durable,
}

-- No text stands twice.
abbrev pub IsDistinct : List String → Type 0
IsDistinct [] = Unit
IsDistinct (x ∷ xs) = (elem x xs ≡ false) × IsDistinct xs

get_elem?-some : (l : List String) (i : ℕ) → i < length l → (x : String) × (get_elem? l i ≡ some x)
get_elem?-some [] i h = absurd (omega arith)
get_elem?-some (x ∷ l) zero h = (x, refl)
get_elem?-some (x ∷ l) (suc i) h = get_elem?-some l i (omega arith)

elem-get_elem? : (l : List String) (i : ℕ) (x : String) → get_elem? l i ≡ some x → elem x l ≡ true
unfolding elem
elem-get_elem? [] i x h = absurd (ground arith)
elem-get_elem? (y ∷ l) zero x h = rw ((eq_iff x y).1 (sym (some-inj y x h))) refl
elem-get_elem? (y ∷ l) (suc i) x h = elim (Bool-cases (str_eq x y)) [
  | inl hit ↦ rw hit refl
  | inr miss ↦ rw miss (elem-get_elem? l i x h)
]

-- A text that stands in the list is not one that does not.
apart : (l : List String) (x y : String) → elem x l ≡ false → elem y l ≡ true → str_eq x y ≡ false
apart l x y h k = elim (Bool-cases (str_eq x y)) [
  | inl hit ↦
      let e : elem x l ≡ true = subst (λ z. elem z l ≡ true) (sym ((eq_iff x y).0 hit)) k in
      absurd (false_ne_true (sym h ∙ e))
  | inr miss ↦ miss
]
  where
    false_ne_true : false ≡ true → ⊥
    false_ne_true e = cc

-- Different places of a list of different texts.
places_differ :
    (l : List String) (i j : ℕ) (x y : String)
    → IsDistinct l
    → i < j
    → get_elem? l i ≡ some x
    → get_elem? l j ≡ some y
    → str_eq x y ≡ false
places_differ [] i j x y d h a b = absurd (ground arith)
places_differ (z ∷ l) i zero x y d h a b = absurd (omega arith)
places_differ (z ∷ l) zero (suc j) x y d h a b =
    subst (λ t. str_eq t y ≡ false) (some-inj z x a) (apart l z y d.0 (elem-get_elem? l j y b))
places_differ (z ∷ l) (suc i) (suc j) x y d h a b = places_differ l i j x y d.1 (omega arith) a b

length-put :
    (d : Dict ℕ) (x : String) (i : ℕ) → has d x ≡ false → length (put d x i) ≡ suc (length d)
unfolding has put
length-put [] x i h = refl
length-put ((y, j) ∷ d) x i h = elim (Bool-cases (str_eq y x)) [
  | inl hit ↦ absurd (ground arith)
  | inr miss ↦ rw miss (ap suc (length-put d x i (rw miss at h)))
]

mul-lt : (i j s : ℕ) → i < j → 1 ≤ s → i * s < j * s
mul-lt i j s h k = grind arith

module _ (ordered : List String) (s n : ℕ) (different : IsDistinct ordered) (pos : 1 ≤ s)
    (fits : n * s ≤ length ordered) where
  node_at-some : (j : ℕ) → j < n → (x : String) × (node_at ordered (j * s) ≡ some x)
  unfolding node_at
  node_at-some j h =
      let below : j * s < length ordered = omega (arith, mul-lt j n s h pos, fits) in
      let (x, e) = get_elem?-some ordered (j * s) below in
      (x, ap (get_elem? ordered) (mod-eq_of_lt below) ∙ e)

  nodes_differ :
      (i j : ℕ) (x y : String)
      → i < j
      → j < n
      → node_at ordered (i * s) ≡ some x
      → node_at ordered (j * s) ≡ some y
      → str_eq x y ≡ false
  unfolding node_at
  nodes_differ i j x y h k a b =
      let below_j : j * s < length ordered = omega (arith, mul-lt j n s k pos, fits) in
      let below_i : i * s < length ordered = omega (arith, mul-lt i j s h pos, below_j) in
      places_differ ordered (i * s) (j * s) x y different (mul-lt i j s h pos)
        (ap (get_elem? ordered) (sym (mod-eq_of_lt below_i)) ∙ a)
        (ap (get_elem? ordered) (sym (mod-eq_of_lt below_j)) ∙ b)

  -- The nodes of the shards from `i` on are not in use.
  abbrev IsFree : ℕ → Dict ℕ → Type 0
  IsFree i d =
      (j : ℕ) (x : String) → i ≤ j → j < n → node_at ordered (j * s) ≡ some x → has d x ≡ false

  assign-counts :
      (left i : ℕ) (d : Dict ℕ)
      → i + left ≡ n
      → IsUnique d
      → IsFree i d
      → IsUnique (assign ordered s i left d)
        × (length (assign ordered s i left d) ≡ length d + left)
  unfolding assign
  assign-counts zero i d h u f = (u, omega arith)
  assign-counts (suc left) i d h u f =
      let (x, e) = node_at-some i (omega arith) in
      let free : has d x ≡ false = f i x (omega arith) (omega arith) e in
      let rest =
        assign-counts left (suc i) (put d x i) (omega arith) (IsUnique-put d x i u) (λ j y k l b.
          has-put d x y i
          ∙ rw (nodes_differ i j x y (omega arith) l e b) (f j y (omega arith) l b)) in
      rw e (rest.0, rest.1 ∙ omega (arith, length-put d x i free))

stride_fits : (n total : ℕ) → n ≤ total → n * max 1 (total / n) ≤ total
unfolding max
stride_fits n total h = elim (Bool-cases (leb 1 (total / n))) [
  | inl wide ↦ rw (wide, mul_comm n (total / n)) (div-mul-le_self total n)
  | inr narrow ↦ rw narrow (omega (arith, h))
]

stride-pos : (x : ℕ) → 1 ≤ max 1 x
unfolding max
stride-pos x = ground arith

-- The shards on nodes that pass the test, and on the others.
unfoldable pub shards_on : (String → Bool) → Dict ℕ → ℕ
shards_on test [] = 0
shards_on test ((node, i) ∷ d) = (if test node then 1 else 0) + shards_on test d

unfoldable pub shards_off : (String → Bool) → Dict ℕ → ℕ
shards_off test [] = 0
shards_off test ((node, i) ∷ d) = (if test node then 0 else 1) + shards_off test d

on_off : (test : String → Bool) (d : Dict ℕ) → shards_on test d + shards_off test d ≡ length d
unfolding shards_on shards_off
on_off test [] = omega arith
on_off test ((node, i) ∷ d) = ground (arith, on_off test d)

-- If the nodes are all different, and the placement has at least one shard and no more shards than
-- there are nodes, then with fuel for the tree the dispersal returns, and it gives the shards to as
-- many different nodes.
pub disperse_shards-IsUnique :
    (fuel : ℕ) (nodes : List String) (p : Placement)
    → length nodes ≤ fuel
    → IsDistinct nodes
    → 1 ≤ rs_n p
    → rs_n p ≤ length nodes
    → (d : Dict ℕ) × (disperse_shards fuel nodes p ≡ built d) × IsUnique d × (length d ≡ rs_n p)
unfolding disperse_shards place_shards
disperse_shards-IsUnique fuel nodes p enough different pos h =
    let (t, e, same, ternary) = build_tree-builds fuel nodes (omega (arith, pos, h)) enough in
    let n = rs_n p in
    let s = max 1 (length nodes / n) in
    let (u, counted) =
      assign-counts nodes s n different (stride-pos (length nodes / n))
        (stride_fits n (length nodes) h) n 0 [] (omega arith) tt (λ j x l k b. none_there x) in
    let room : ltb (length nodes) n ≡ false = ground (arith, h) in
    let some_shard : (n == 0) ≡ false = ground (arith, pos) in
    (assign nodes s 0 n [], rw (e, same, room, some_shard) refl, u, counted ∙ omega arith)
  where
    none_there : (x : String) → has {V = ℕ} [] x ≡ false
    none_there x = unfold has in refl

built-inj : (x y : Dict ℕ) → built x ≡ built y → x ≡ y
built-inj x y h =
    ap (elim [ built z ↦ z | value_error ↦ x | zero_division ↦ x | out_of_fuel ↦ x ]) h

-- Under the same conditions, whichever nodes are seized: if they hold at most rs_m of the shards of
-- a dispersal, then the shards on the other nodes are enough to reconstruct the leaf.
pub disperse_shards-durable :
    (fuel : ℕ) (nodes : List String) (p : Placement) (d : Dict ℕ) (seized : String → Bool)
    → length nodes ≤ fuel
    → IsDistinct nodes
    → 1 ≤ rs_n p
    → rs_n p ≤ length nodes
    → disperse_shards fuel nodes p ≡ built d
    → shards_on seized d ≤ p.rs_m
    → durable (shards_off seized d) p ≡ true
unfolding durable rs_n
disperse_shards-durable fuel nodes p d seized enough different pos h e few =
    let (d', e', u, total) = disperse_shards-IsUnique fuel nodes p enough different pos h in
    let same : length d' ≡ length d = ap length (built-inj d' d (sym e' ∙ e)) in
    le→leb p.rs_k (shards_off seized d) (omega (arith, total, same, on_off seized d, few))
  where
    le→leb : (a b : ℕ) → a ≤ b → leb a b ≡ true
    le→leb a b h = ground arith
