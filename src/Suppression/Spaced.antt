-- ===== src/Suppression/Spaced.antt =====
-- How far apart the decisions on one condition are, by automation/suppression.py.
use socio_workspace.Base.{
  ℕ, ◌+◌, ◌≤◌, ◌<◌, ◌≡◌, inl, inr, refl, false, Option, none, some, List, [], ◌∷◌, String, arith,
  Bool-cases, ◌==◌, str_eq, eq_iff, subst,
}
use socio_workspace.Base.Dict.{get, put, get-put}
use socio_workspace.Suppression.{Store, is_recent, should_process, decided}

-- Each time is at least the cooldown after the one before it, the first after the given entry.
abbrev pub IsSpaced : ℕ → Option (Option ℕ) → List ℕ → Type 0
IsSpaced cooldown entry [] = Unit
IsSpaced cooldown none (t ∷ ts) = IsSpaced cooldown (some (some t)) ts
IsSpaced cooldown (some none) (t ∷ ts) = IsSpaced cooldown (some (some t)) ts
IsSpaced cooldown (some (some last)) (t ∷ ts) =
    (last + cooldown ≤ t) × IsSpaced cooldown (some (some t)) ts

IsSpaced-cons :
    (cooldown now : ℕ) (entry : Option (Option ℕ)) (ts : List ℕ)
    → is_recent entry cooldown now ≡ false
    → IsSpaced cooldown (some (some now)) ts
    → IsSpaced cooldown entry (now ∷ ts)
unfolding is_recent
IsSpaced-cons cooldown now none ts h s = s
IsSpaced-cons cooldown now (some none) ts h s = s
IsSpaced-cons cooldown now (some (some last)) ts h s = (ground arith, s)

-- With a cooldown that is not zero, whatever conditions are observed at whatever times, in any
-- state of the store: the decisions on one condition are at least the cooldown apart, and the
-- first of them comes at least the cooldown after the time in the store.
pub decided-IsSpaced :
    (cooldown : ℕ) (fp : String) (seen : List (String × ℕ)) (store : Store)
    → 0 < cooldown
    → IsSpaced cooldown (get store fp) (decided cooldown fp seen store)
unfolding decided should_process
decided-IsSpaced cooldown fp [] store pos = tt
decided-IsSpaced cooldown fp ((k, now) ∷ seen) store pos =
    let armed : (cooldown == 0) ≡ false = ground arith in
    elim (Bool-cases (is_recent (get store k) cooldown now)) [
      | inl recent ↦ rw (armed, recent) (decided-IsSpaced cooldown fp seen store pos)
      | inr old ↦
          let rest = decided-IsSpaced cooldown fp seen (put store k (some now)) pos in
          elim (Bool-cases (str_eq k fp)) [
            | inl hit ↦
                let e : get (put store k (some now)) fp ≡ some (some now) =
                  rw (get-put store k fp (some now), hit) refl in
                let same = (eq_iff k fp).0 hit in
                rw (armed, old, hit)
                  (IsSpaced-cons cooldown now (get store fp) _
                    (subst (λ x. is_recent (get store x) cooldown now ≡ false) same old)
                    (rw e at rest))
            | inr miss ↦
                let e : get (put store k (some now)) fp ≡ get store fp =
                  rw (get-put store k fp (some now), miss) refl in
                rw (armed, old, miss) (rw e at rest)
          ]
    ]
