-- ===== src/DurableQueue/Reads.antt =====
-- The entries that the pending files of automation/durable_queue.py hold, in the order of their names.
use socio_workspace.Base.{
  suc, ◌≡◌, inl, inr, refl, ◌∙◌, ap, Bool, true, false, Option, some, List, [], ◌∷◌, ◌++◌, String,
  Bool-cases, All, All-append, length, ◌>>=◌,
}
use socio_workspace.DurableQueue.{
  ItemId, File, Directory, before, same, insert_path, read_text, unlink, read_all, is_nil,
}
use socio_workspace.DurableQueue.Order.{before-same, same_comm, before_trans, same-left_of_same}

abbrev pub is_nothing {ℓ} : {A : Type ℓ} → List A → Bool
is_nothing [] = true
is_nothing (_ ∷ _) = false

-- Each name is before the later ones.
abbrev pub IsIncreasing : List ItemId → Type 0
IsIncreasing [] = Unit
IsIncreasing (i ∷ paths) = All (λ j. before i j ≡ true) paths × IsIncreasing paths

pub IsIncreasing-append :
    (paths : List ItemId) (i : ItemId)
    → IsIncreasing paths
    → All (λ j. before j i ≡ true) paths
    → IsIncreasing (paths ++ (i ∷ []))
IsIncreasing-append [] i h a = (tt, tt)
IsIncreasing-append (j ∷ paths) i h a = (
  All-append (λ k. before j k ≡ true) paths (i ∷ []) h.0 (a.0, tt),
  IsIncreasing-append paths i h.1 a.1,
)

-- The newest name goes to the end.
pub insert_path_last :
    (i : ItemId) (paths : List ItemId)
    → All (λ j. before j i ≡ true) paths
    → insert_path i paths ≡ paths ++ (i ∷ [])
unfolding insert_path
insert_path_last i [] a = refl
insert_path_last i (j ∷ paths) a = rw (a.0) (ap (λ r. j ∷ r) (insert_path_last i paths a.1))

pub All-before_trans :
    (i k : ItemId) (paths : List ItemId)
    → before i k ≡ true
    → All (λ j. before j i ≡ true) paths
    → All (λ j. before j k ≡ true) paths
All-before_trans i k [] h a = tt
All-before_trans i k (j ∷ paths) h a = (before_trans j i k a.0 h, All-before_trans i k paths h a.1)

read_text-unlink :
    (i k : ItemId) (files : List File)
    → same i k ≡ false
    → read_text k (unlink i files) ≡ read_text k files
unfolding read_text unlink
read_text-unlink i k [] h = refl
read_text-unlink i k ((j, text) ∷ files) h = elim (Bool-cases (same j i)) [
  | inl hit ↦ rw hit (rw (same-left_of_same j i k hit ∙ h) refl)
  | inr miss ↦ rw miss (elim (Bool-cases (same j k)) [
    | inl this ↦ rw this refl
    | inr other ↦ rw other (read_text-unlink i k files h)
  ])
]

module _ {V : Type 0} (loads : String → Option V) where
  -- The files of the names hold the entries.
  abbrev pub Reads : List File → List ItemId → List V → Type 0
  Reads files [] [] = Unit
  Reads files [] (_ ∷ _) = ⊥
  Reads files (_ ∷ _) [] = ⊥
  Reads files (i ∷ paths) (entry ∷ q) =
      (read_text i files >>= loads ≡ some entry) × Reads files paths q

  pub Reads-unlink :
      (i : ItemId) (files : List File) (paths : List ItemId) (q : List V)
      → All (λ j. before i j ≡ true) paths
      → Reads files paths q
      → Reads (unlink i files) paths q
  Reads-unlink i files [] [] a h = tt
  Reads-unlink i files [] (_ ∷ _) a h = h
  Reads-unlink i files (_ ∷ _) [] a h = h
  Reads-unlink i files (j ∷ paths) (entry ∷ q) a h = (
    rw (read_text-unlink i j files (before-same i j a.0)) (h.0),
    Reads-unlink i files paths q a.1 h.1,
  )

  pub Reads-add :
      (i : ItemId) (text : String) (files : List File) (paths : List ItemId) (q : List V)
      → All (λ j. before j i ≡ true) paths
      → Reads files paths q
      → Reads ((i, text) ∷ files) paths q
  unfolding read_text
  Reads-add i text files [] [] a h = tt
  Reads-add i text files [] (_ ∷ _) a h = h
  Reads-add i text files (_ ∷ _) [] a h = h
  Reads-add i text files (j ∷ paths) (entry ∷ q) a h =
      (rw (same_comm i j ∙ before-same j i a.0) (h.0), Reads-add i text files paths q a.1 h.1)

  pub Reads-append :
      (i : ItemId) (entry : V) (files : List File) (paths : List ItemId) (q : List V)
      → Reads files paths q
      → read_text i files >>= loads ≡ some entry
      → Reads files (paths ++ (i ∷ [])) (q ++ (entry ∷ []))
  Reads-append i entry files [] [] h e = (e, tt)
  Reads-append i entry files [] (_ ∷ _) h e = absurd h
  Reads-append i entry files (_ ∷ _) [] h e = absurd h
  Reads-append i entry files (j ∷ paths) (w ∷ q) h e =
      (h.0, Reads-append i entry files paths q h.1 e)

  pub read_all-Reads :
      (d : Directory) (paths : List ItemId) (q : List V)
      → Reads d.pending paths q
      → read_all loads paths d ≡ q
  unfolding read_all
  read_all-Reads d [] [] h = refl
  read_all-Reads d [] (_ ∷ _) h = absurd h
  read_all-Reads d (_ ∷ _) [] h = absurd h
  read_all-Reads d (j ∷ paths) (w ∷ q) h =
      rw (h.0, read_all) (ap (λ r. w ∷ r) (read_all-Reads d paths q h.1))

  pub length-Reads :
      (files : List File) (paths : List ItemId) (q : List V)
      → Reads files paths q
      → length paths ≡ length q
  length-Reads files [] [] h = refl
  length-Reads files [] (_ ∷ _) h = absurd h
  length-Reads files (_ ∷ _) [] h = absurd h
  length-Reads files (j ∷ paths) (w ∷ q) h = ap suc (length-Reads files paths q h.1)

  pub is_nil-Reads :
      (files : List File) (paths : List ItemId) (q : List V)
      → Reads files paths q
      → is_nil paths ≡ is_nothing q
  unfolding is_nil
  is_nil-Reads files [] [] h = refl
  is_nil-Reads files [] (_ ∷ _) h = absurd h
  is_nil-Reads files (_ ∷ _) [] h = absurd h
  is_nil-Reads files (j ∷ paths) (w ∷ q) h = refl
