-- ===== src/Tests/Hash.antt =====
-- A hash without collisions, for the runs of the ledger: two texts put into one.
use socio_workspace.Base.{◌≡◌, ◌≢◌, refl, ap, sym, arith}
use Prim.Native.String.{String, [], ◌∷◌}
use Prim.Native.Char.{Char, char, code}

-- The first text with a mark before each character and after the last, and then the second.
abbrev pub join_texts : String → String → String
join_texts [] t = "e" ∷ t
join_texts (c ∷ s) t = "c" ∷ (c ∷ join_texts s t)

abbrev tail : String → String
tail [] = []
tail (c ∷ s) = s

abbrev head : Char → String → Char
head d [] = d
head d (c ∷ s) = c

marks_differ : (s t : String) → Path String ("e" ∷ s) ("c" ∷ t) → ⊥
marks_differ s t h = ground (arith, ap (λ x. code (head (char 0 tt) x)) h)

cons_eq : {c d : Char} {s t : String} → c ≡ d → s ≡ t → Path String (c ∷ s) (d ∷ t)
cons_eq p q = cc

pub join_texts-inj : (s t u v : String) → join_texts s t ≡ join_texts u v → (s ≡ u) × (t ≡ v)
join_texts-inj [] t [] v h = (refl, ap tail h)
join_texts-inj [] t (d ∷ u) v h = absurd (marks_differ _ _ h)
join_texts-inj (c ∷ s) t [] v h = absurd (marks_differ _ _ (sym h))
join_texts-inj (c ∷ s) t (d ∷ u) v h =
    let (same, rest) = join_texts-inj s t u v (ap (λ x. tail (tail x)) h) in
    (cons_eq (ap (λ x. head (char 0 tt) (tail x)) h) same, rest)

pub join_texts-full : (s t : String) → join_texts s t ≢ ""
join_texts-full [] t h = cc
join_texts-full (c ∷ s) t h = cc
