-- ===== src/DurableQueue/Behaviour.antt =====
-- What one undisturbed `get_nowait` of automation/durable_queue.py does to the directory.
use socio_workspace.Base.{
  ◌≡◌, ◌⊎◌, inl, inr, refl, sym, ◌∙◌, ap, Bool, true, false, Option, none, some, List, [], ◌∷◌,
  String, arith, Bool-cases, List-cases, if◌then◌else◌,
}
use socio_workspace.DurableQueue.{
  ItemId, File, Directory, Got, got, queue_empty, raised, same, insert_path, sort_paths, names,
  pending_paths, read_text, unlink, rename_to_claim, unlink_claim, read_claim, claim_first,
  get_nowait,
}
use socio_workspace.DurableQueue.Order.{
  same_refl, drop_path, sort_paths-unlink, IsLeast, sort_paths-IsLeast,
}

has_path : ItemId → List ItemId → Bool
has_path i [] = false
has_path i (j ∷ ids) = if same j i then true else has_path i ids

has_path-insert_path :
    (i j : ItemId) (ids : List ItemId) → has_path i (insert_path j ids) ≡ has_path i (j ∷ ids)
unfolding has_path insert_path
has_path-insert_path i j [] = refl
has_path-insert_path i j (k ∷ ids) = ground (arith, has_path-insert_path i j ids)

has_path-sort_paths :
    (i : ItemId) (ids : List ItemId) → has_path i (sort_paths ids) ≡ has_path i ids
unfolding has_path sort_paths
has_path-sort_paths i [] = refl
has_path-sort_paths i (j ∷ ids) =
    ground (arith, has_path-insert_path i j (sort_paths ids), has_path-sort_paths i ids)

read_text-has_path :
    (i : ItemId) (files : List File)
    → has_path i (names files) ≡ true
    → (text : String) × (read_text i files ≡ some text)
unfolding has_path read_text
read_text-has_path i [] h = absurd (ground arith)
read_text-has_path i ((j, text) ∷ files) h = elim (Bool-cases (same j i)) [
  | inl hit ↦ (text, rw hit refl)
  | inr miss ↦ let (t, e) = read_text-has_path i files (ground arith) in (t, rw miss e)
]

-- A listed file can be read.
pub read_text-pending_paths :
    (i : ItemId) (ids : List ItemId) (d : Directory)
    → pending_paths d ≡ i ∷ ids
    → (text : String) × (read_text i d.pending ≡ some text)
unfolding pending_paths has_path
read_text-pending_paths i ids d h =
    read_text-has_path i d.pending
      (sym (has_path-sort_paths i (names d.pending)) ∙ rw (h, same_refl i) refl)

pub pending_paths-unlink :
    (i : ItemId) (ids : List ItemId) (d : Directory) (claimed : List File)
    → pending_paths d ≡ i ∷ ids
    → pending_paths (record { pending = unlink i d.pending; claimed = claimed }) ≡ ids
unfolding pending_paths drop_path
pending_paths-unlink i ids d claimed h =
    sort_paths-unlink i d.pending ∙ (ap (drop_path i) h ∙ rw (same_refl i) refl)

pub rename_to_claim-here :
    (i : ItemId) (text : String) (d : Directory)
    → read_text i d.pending ≡ some text
    → rename_to_claim i d
      ≡ some (record { pending = unlink i d.pending; claimed = (i, text) ∷ d.claimed })
unfolding rename_to_claim
rename_to_claim-here i text d e = rw (e, rename_to_claim) refl

module _ {V : Type 0} (loads : String → Option V) where
  -- What the text of a claimed file gives.
  abbrev pub parsed : String → Got V
  parsed text = elim (loads text) [ none ↦ raised | some entry ↦ got entry ]

  -- The directory without the file.
  abbrev pub without : ItemId → Directory → Directory
  without i d = record d { pending = unlink i d.pending }

  claim_first-here :
      (i : ItemId) (ids : List ItemId) (text : String) (d : Directory)
      → read_text i d.pending ≡ some text
      → claim_first loads (i ∷ ids) d ≡ (without i d, parsed text)
  unfolding claim_first unlink_claim read_claim read_text unlink
  claim_first-here i ids text d e =
      rw (rename_to_claim-here i text d e, claim_first, same_refl i, read_claim) refl

  pub get_nowait-first :
      (i : ItemId) (ids : List ItemId) (text : String) (d : Directory)
      → pending_paths d ≡ i ∷ ids
      → read_text i d.pending ≡ some text
      → get_nowait loads d ≡ (without i d, parsed text)
  unfolding get_nowait
  get_nowait-first i ids text d h e = rw h (claim_first-here i ids text d e)

  -- What `get_nowait` does, on an empty and on another directory.
  abbrev pub TakesFirst : Directory → Type 0
  TakesFirst d =
      ((pending_paths d ≡ []) × (get_nowait loads d ≡ (d, queue_empty)))
      ⊎ ((i : ItemId) × (ids : List ItemId) × (text : String) × (pending_paths d ≡ i ∷ ids)
          × (read_text i d.pending ≡ some text)
          × (get_nowait loads d ≡ (without i d, parsed text))
          × (pending_paths (without i d) ≡ ids)
          × IsLeast i (names d.pending))

  -- Undisturbed, `get_nowait` on a directory with no pending file changes nothing and raises
  -- `queue.Empty`. On any other it takes a pending file, before which no pending name is, and no
  -- other, and leaves no claim. It returns what that text parses to, and raises if it does not parse: then
  -- the file is gone as well.
  pub get_nowait_lem : (d : Directory) → TakesFirst d
  unfolding get_nowait claim_first pending_paths
  get_nowait_lem d = elim (List-cases (pending_paths d)) [
    | inl h ↦ inl (h, rw h refl)
    | inr (i, ids, h) ↦
        let (text, e) = read_text-pending_paths i ids d h in
        inr (
          i,
          ids,
          text,
          h,
          e,
          get_nowait-first i ids text d h e,
          pending_paths-unlink i ids d d.claimed h,
          sort_paths-IsLeast i (names d.pending) ids h,
        )
  ]
