-- ===== src/TriadRotation/Thirds.antt =====
-- Remainders by three of the integers of automation/triad_rotation.py.
use socio_workspace.Base.{ℕ, zero, suc, ◌+◌, ◌-◌, ◌*◌, ◌/◌, ◌%◌, ◌<◌, ◌≡◌, sym, ◌∙◌, ap, arith}
use native.Mathlib.Nat.{mod-add-div, add-mul-mod_self_left}
use socio_workspace.TriadRotation.{ℤ, pos, negsuc, neg_of, ◌*ℤ◌, mod3}

mul_split : (a b : ℕ) → a * b ≡ (a % 3) * b + 3 * ((a / 3) * b)
mul_split a b = ap (λ t. t * b) (sym (mod-add-div a 3)) ∙ grind arith

literal_mod : (r b : ℕ) → r < 3 → (r * b) % 3 ≡ (r * (b % 3)) % 3
literal_mod zero b h = omega arith
literal_mod (suc zero) b h = omega arith
literal_mod (suc (suc zero)) b h = omega arith
literal_mod (suc (suc (suc r))) b h = absurd (omega arith)

mul_mod3 : (a b : ℕ) → (a * b) % 3 ≡ ((a % 3) * (b % 3)) % 3
mul_mod3 a b =
    ap (λ t. t % 3) (mul_split a b)
    ∙ (add-mul-mod_self_left ((a % 3) * b) 3 ((a / 3) * b) ∙ literal_mod (a % 3) b (omega arith))

mod3-neg_of : (m : ℕ) → mod3 (neg_of m) ≡ (3 - m % 3) % 3
unfolding mod3 neg_of
mod3-neg_of zero = omega arith
mod3-neg_of (suc m) = omega arith

one_negative : (r s : ℕ) → r < 3 → s < 3 → (3 - (r * ((s + 1) % 3)) % 3) % 3 ≡ (r * (2 - s)) % 3
one_negative zero s h k = omega arith
one_negative (suc zero) s h k = omega arith
one_negative (suc (suc zero)) s h k = omega arith
one_negative (suc (suc (suc r))) s h k = absurd (omega arith)

other_negative : (r s : ℕ) → r < 3 → s < 3 → (3 - (((r + 1) % 3) * s) % 3) % 3 ≡ ((2 - r) * s) % 3
other_negative zero s h k = omega arith
other_negative (suc zero) s h k = omega arith
other_negative (suc (suc zero)) s h k = omega arith
other_negative (suc (suc (suc r))) s h k = absurd (omega arith)

both_negative :
    (r s : ℕ) → r < 3 → s < 3 → (((r + 1) % 3) * ((s + 1) % 3)) % 3 ≡ ((2 - r) * (2 - s)) % 3
both_negative zero s h k = omega arith
both_negative (suc zero) s h k = omega arith
both_negative (suc (suc zero)) s h k = omega arith
both_negative (suc (suc (suc r))) s h k = absurd (omega arith)

suc_mod3 : (a : ℕ) → (a + 1) % 3 ≡ (a % 3 + 1) % 3
suc_mod3 a = omega arith

-- The remainder of a product.
pub mod3-mul : (x y : ℤ) → mod3 (x *ℤ y) ≡ (mod3 x * mod3 y) % 3
unfolding mod3 ◌*ℤ◌
mod3-mul (pos a) (pos b) = mul_mod3 a b
mod3-mul (pos a) (negsuc b) =
    mod3-neg_of (a * (b + 1))
    ∙ rw (mul_mod3 a (b + 1), suc_mod3 b) (one_negative (a % 3) (b % 3) (omega arith) (omega arith))
mod3-mul (negsuc a) (pos b) =
    mod3-neg_of ((a + 1) * b)
    ∙ rw (mul_mod3 (a + 1) b, suc_mod3 a)
        (other_negative (a % 3) (b % 3) (omega arith) (omega arith))
mod3-mul (negsuc a) (negsuc b) =
    rw (mul_mod3 (a + 1) (b + 1), suc_mod3 a, suc_mod3 b)
      (both_negative (a % 3) (b % 3) (omega arith) (omega arith))

-- The epoch after.
unfoldable pub next : ℤ → ℤ
next (pos n) = pos (suc n)
next (negsuc zero) = pos zero
next (negsuc (suc n)) = negsuc n

pub mod3-next : (e : ℤ) → mod3 (next e) ≡ (mod3 e + 1) % 3
unfolding mod3 next
mod3-next (pos n) = omega arith
mod3-next (negsuc zero) = omega arith
mod3-next (negsuc (suc n)) = omega arith
