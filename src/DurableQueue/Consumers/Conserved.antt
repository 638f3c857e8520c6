-- ===== src/DurableQueue/Consumers/Conserved.antt =====
-- No step loses or doubles a file, and the claimed files are those that a process holds.
use socio_workspace.Base.{
  ℕ, ◌+◌, ◌≤◌, ◌<◌, ◌≡◌, inl, inr, refl, Bool, true, Option, none, some, List, [], ◌∷◌, ◌++◌,
  String, arith, Bool-cases, Option-cases, if◌then◌else◌,
}
use socio_workspace.DurableQueue.{
  ItemId, File, same, read_text, unlink, rename_to_claim, unlink_claim,
}
use socio_workspace.DurableQueue.Consumers.{
  Consumer, idle, trying, holding, unlinked, crashed, Shared, finish, advance, count, named,
}

pub same-eq : (a b : ItemId) → same a b ≡ true → a ≡ b
unfolding same
same-eq a b h = ground arith

pub count-unlink :
    (p : File → Bool) (i : ItemId) (text : String) (files : List File)
    → read_text i files ≡ some text
    → count p files ≡ count p ((i, text) ∷ unlink i files)
unfolding count read_text unlink
count-unlink p i text [] h = absurd (ground arith)
count-unlink p i text ((j, t) ∷ files) h = elim (Bool-cases (same j i)) [
  | inl hit ↦ ground (arith, same-eq j i hit)
  | inr miss ↦ ground (arith, count-unlink p i text files)
]

count-named-absent :
    (i : ItemId) (files : List File) → read_text i files ≡ none → count (named i) files ≡ 0
unfolding count read_text
count-named-absent i [] h = refl
count-named-absent i ((j, text) ∷ files) h = ground (arith, count-named-absent i files)

-- All files that are anywhere.
unfoldable pub total : (File → Bool) → Shared → ℕ
total p sh =
    count p sh.directory.pending
    + (count p sh.directory.claimed + (count p sh.returned + count p sh.lost))

-- The claim of a process, alive or dead, that it has not unlinked.
unfoldable pub claims : ItemId → Consumer → ℕ
claims i idle = 0
claims i (trying ids) = 0
claims i (holding j) = if same j i then 1 else 0
claims i (unlinked file) = 0
claims i (crashed c) = claims i c

-- The file that a process, alive or dead, has unlinked and not returned.
unfoldable pub hand : (File → Bool) → Consumer → ℕ
hand p idle = 0
hand p (trying ids) = 0
hand p (holding j) = 0
hand p (unlinked file) = if p file then 1 else 0
hand p (crashed c) = hand p c

unfoldable pub in_hand : (File → Bool) → List Consumer → ℕ
in_hand p [] = 0
in_hand p (c ∷ cs) = hand p c + in_hand p cs

pub in_hand-append :
    (p : File → Bool) (xs : List Consumer) (c : Consumer) (ys : List Consumer)
    → in_hand p (xs ++ (c ∷ ys)) ≡ hand p c + (in_hand p xs + in_hand p ys)
unfolding in_hand
in_hand-append p [] c ys = omega arith
in_hand-append p (x ∷ xs) c ys = omega (arith, in_hand-append p xs c ys)

-- What a process holds, claimed or in its hand.
unfoldable pub holds : ItemId → Consumer → ℕ
holds i c = claims i c + hand (named i) c

unfoldable pub holders : ItemId → List Consumer → ℕ
holders i [] = 0
holders i (c ∷ cs) = holds i c + holders i cs

pub holders-append :
    (i : ItemId) (xs : List Consumer) (c : Consumer) (ys : List Consumer)
    → holders i (xs ++ (c ∷ ys)) ≡ holds i c + (holders i xs + holders i ys)
unfolding holders
holders-append i [] c ys = omega arith
holders-append i (x ∷ xs) c ys = omega (arith, holders-append i xs c ys)

pub read_text-count :
    (i : ItemId) (files : List File)
    → 0 < count (named i) files
    → (text : String) × (read_text i files ≡ some text)
unfolding count read_text
read_text-count i [] h = absurd (omega arith)
read_text-count i ((j, text) ∷ files) h = elim (Bool-cases (same j i)) [
  | inl hit ↦ (text, rw hit refl)
  | inr miss ↦ let (t, e) = read_text-count i files (ground arith) in (t, rw miss e)
]

module _ {V : Type 0} (loads : String → Option V) where
  total-finish :
      (p : File → Bool) (file : File) (sh : Shared)
      → total p (finish loads file sh) ≡ total p sh + (if p file then 1 else 0)
  unfolding total count finish
  total-finish p (i, text) sh = elim (Option-cases (loads text)) [
    | inl bad ↦ rw (bad, finish) (ground arith)
    | inr (entry, good) ↦ rw (good, finish) (ground arith)
  ]

  claimed-finish :
      (file : File) (sh : Shared) → (finish loads file sh).directory.claimed ≡ sh.directory.claimed
  unfolding finish
  claimed-finish (i, text) sh = elim (Option-cases (loads text)) [
    | inl bad ↦ rw (bad, finish) refl
    | inr (entry, good) ↦ rw (good, finish) refl
  ]

  -- A step of a process keeps all files, with the one in its hand.
  pub total-advance :
      (p : File → Bool) (c : Consumer) (sh : Shared)
      → total p (advance loads c sh).1 + hand p (advance loads c sh).0 ≡ total p sh + hand p c
  unfolding advance rename_to_claim hand
  total-advance p idle sh = refl
  total-advance p (trying []) sh = refl
  total-advance p (trying (i ∷ ids)) sh = elim (Option-cases (read_text i sh.directory.pending)) [
    | inl e ↦ rw (e, rename_to_claim, advance) refl
    | inr (text, e) ↦
        let c = count-unlink p i text sh.directory.pending e in
        rw (e, rename_to_claim, advance) (unfold total count in ground (arith, c))
  ]
  total-advance p (holding i) sh = elim (Option-cases (read_text i sh.directory.claimed)) [
    | inl e ↦ rw (e, advance) refl
    | inr (text, e) ↦
        let c = count-unlink p i text sh.directory.claimed e in
        rw (e, advance) (unfold total count unlink_claim in ground (arith, c))
  ]
  total-advance p (unlinked file) sh = omega (arith, total-finish p file sh)
  total-advance p (crashed c) sh = refl

  -- What a process claims and what is claimed change together, if the file that it claims is there.
  pub claims-advance :
      (i : ItemId) (c : Consumer) (sh : Shared)
      → claims i c ≤ count (named i) sh.directory.claimed
      → claims i (advance loads c sh).0 + count (named i) sh.directory.claimed
        ≡ claims i c + count (named i) (advance loads c sh).1.directory.claimed
  unfolding advance claims rename_to_claim count unlink_claim
  claims-advance i idle sh h = refl
  claims-advance i (trying []) sh h = refl
  claims-advance i (trying (j ∷ ids)) sh h =
      elim (Option-cases (read_text j sh.directory.pending)) [
        | inl e ↦ rw (e, rename_to_claim, advance) refl
        | inr (text, e) ↦ rw (e, rename_to_claim, advance) (ground arith)
      ]
  claims-advance i (holding j) sh h = elim (Option-cases (read_text j sh.directory.claimed)) [
    | inl e ↦
        rw (e, advance)
          (elim (Bool-cases (same j i)) [
            | inl hit ↦
                absurd
                  (ground (arith, same-eq j i hit, count-named-absent j sh.directory.claimed e))
            | inr miss ↦ rw miss refl
          ])
    | inr (text, e) ↦
        let c = count-unlink (named i) j text sh.directory.claimed e in
        rw (e, advance) (ground (arith, c))
  ]
  claims-advance i (unlinked file) sh h = rw (claimed-finish file sh) refl
  claims-advance i (crashed c) sh h = omega arith
