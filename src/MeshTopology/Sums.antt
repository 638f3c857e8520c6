-- ===== src/MeshTopology/Sums.antt =====
-- Sums over the numbers below a bound, in rows: for the turns of automation/mesh_topology.py.
use socio_workspace.Base.{ℕ, zero, suc, ◌+◌, ◌*◌, ◌<◌, ◌≡◌, refl, ◌∙◌, arith}

-- f(0) + ... + f(n - 1)
unfoldable pub sum_below : ℕ → (ℕ → ℕ) → ℕ
sum_below zero f = 0
sum_below (suc n) f = sum_below n f + f n

pub sum_below-eq :
    (n : ℕ) (f g : ℕ → ℕ) → ((k : ℕ) → k < n → f k ≡ g k) → sum_below n f ≡ sum_below n g
unfolding sum_below
sum_below-eq zero f g h = refl
sum_below-eq (suc n) f g h =
    omega (arith, sum_below-eq n f g (λ k l. h k (omega arith)), h n (omega arith))

pub sum_below-add :
    (n : ℕ) (f g : ℕ → ℕ) → sum_below n (λ k. f k + g k) ≡ sum_below n f + sum_below n g
unfolding sum_below
sum_below-add zero f g = omega arith
sum_below-add (suc n) f g = omega (arith, sum_below-add n f g)

-- The first term apart.
pub sum_below-suc : (n : ℕ) (f : ℕ → ℕ) → sum_below (suc n) f ≡ f 0 + sum_below n (λ k. f (suc k))
unfolding sum_below
sum_below-suc zero f = omega arith
sum_below-suc (suc n) f = omega (arith, sum_below-suc n f)

pub sum_below-append :
    (m n : ℕ) (f : ℕ → ℕ) → sum_below (m + n) f ≡ sum_below m f + sum_below n (λ k. f (m + k))
unfolding sum_below
sum_below-append m zero f = rw (add-zero' m) (omega arith)
  where
    add-zero' : (m : ℕ) → m + 0 ≡ m
    add-zero' m = omega arith
sum_below-append m (suc n) f = rw (add-suc' m n) (omega (arith, sum_below-append m n f))
  where
    add-suc' : (m n : ℕ) → m + suc n ≡ suc (m + n)
    add-suc' m n = omega arith

-- A sum over numbers in rows of length `c`.
pub sum_below-rows :
    (q c : ℕ) (f : ℕ → ℕ)
    → sum_below (q * c) f ≡ sum_below q (λ i. sum_below c (λ k. f (i * c + k)))
unfolding sum_below
sum_below-rows zero c f = rw (zero-mul' c) refl
  where
    zero-mul' : (c : ℕ) → 0 * c ≡ 0
    zero-mul' c = omega arith
sum_below-rows (suc q) c f =
    rw (suc-mul' q c) (sum_below-append (q * c) c f ∙ omega (arith, sum_below-rows q c f))
  where
    suc-mul' : (q c : ℕ) → suc q * c ≡ q * c + c
    suc-mul' q c = omega arith
