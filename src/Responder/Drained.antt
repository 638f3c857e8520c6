-- ===== src/Responder/Drained.antt =====
-- How the drain of the inbox by `run_once` of automation/responder.py ends.
use socio_workspace.Base.{
  ℕ, zero, suc, ◌<◌, ◌≡◌, ◌≢◌, ◌⊎◌, inl, inr, refl, sym, ◌∙◌, subst, Bool, true, Option, some,
  some-inj, Bool-cases, All, List, [], ◌∷◌, String, arith, Option-cases, if◌then◌else◌,
}
use socio_workspace.DurableQueue.{
  Directory, File, same, read_text, unlink, got, raised, pending_paths, get_nowait, empty, is_nil,
  qsize, ItemId,
}
use socio_workspace.DurableQueue.Behaviour.{without, parsed, get_nowait_lem}
use socio_workspace.Responder.{Beacon}
use socio_workspace.Responder.Cycle.{
  Incoming, beacon, ill_formed, Inbox, Drain, drained, keep, admit, after_get, drain,
}

-- The text is not JSON, or a beacon.
abbrev pub IsReadable : (String → Option Incoming) → String → Type 0
IsReadable loads text = loads text ≢ some ill_formed

-- What holds of all texts holds of the one that is read, and of all without one.
All-read_text :
    (P : String → Type 0) (i : ItemId) (text : String) (files : List File)
    → All (λ f. P f.1) files
    → read_text i files ≡ some text
    → P text
unfolding read_text
All-read_text P i text [] a e = absurd (ground arith)
All-read_text P i text ((j, t) ∷ files) a e = elim (Bool-cases (same j i)) [
  | inl hit ↦ subst P (some-inj t text (rw hit at e)) a.0
  | inr miss ↦ All-read_text P i text files a.1 (rw miss at e)
]

All-unlink :
    (P : String → Type 0) (i : ItemId) (files : List File)
    → All (λ f. P f.1) files
    → All (λ f. P f.1) (unlink i files)
unfolding unlink
All-unlink P i [] a = tt
All-unlink P i ((j, t) ∷ files) a = elim (Bool-cases (same j i)) [
  | inl hit ↦ rw hit a.1
  | inr miss ↦ rw miss (a.0, All-unlink P i files a.1)
]

module _ (loads : String → Option Incoming) (cooldown : ℕ) (clock : ℕ → ℕ) where
  -- The drain ended: either nothing is pending, or the last file that was taken did not parse.
  abbrev pub Ends : Drain → Type 0
  Ends e =
      (survivors : List Beacon) × (s : Inbox) × (e ≡ drained survivors s)
      × ((empty s.directory ≡ true)
          ⊎ ((d : Directory) × (get_nowait loads d ≡ (s.directory, raised))))

  admit-directory :
      (b : Beacon) (d : Directory) (s : Inbox) → (admit loads cooldown clock b d s).1.directory ≡ d
  unfolding admit
  admit-directory b d s = elim (Option-cases s.suppressor) [
    | inl e ↦ rw (e, admit) refl
    | inr (store, e) ↦ rw (e, admit) refl
  ]

  keep-Ends : (ok : Bool) (b : Beacon) (e : Drain) → Ends e → Ends (keep ok b e)
  unfolding keep
  keep-Ends ok b e (survivors, s, h, why) =
      ((if ok then b ∷ survivors else survivors), s, rw h refl, why)

  drain-bad :
      (fuel : ℕ) (s : Inbox) (i : ItemId) (ids : List ItemId) (d : Directory)
      → pending_paths s.directory ≡ i ∷ ids
      → get_nowait loads s.directory ≡ (d, raised)
      → drain loads cooldown clock (suc fuel) s ≡ drained [] (record s { directory = d })
  unfolding drain empty is_nil after_get
  drain-bad fuel s i ids d e g = rw (e, g) refl

  drain-good :
      (fuel : ℕ) (s : Inbox) (i : ItemId) (ids : List ItemId) (d : Directory) (b : Beacon)
      → pending_paths s.directory ≡ i ∷ ids
      → get_nowait loads s.directory ≡ (d, got (beacon b))
      → drain loads cooldown clock (suc fuel) s
        ≡ keep
            (admit loads cooldown clock b d s).0
            b
            (drain loads cooldown clock fuel (admit loads cooldown clock b d s).1)
  unfolding drain empty is_nil after_get
  drain-good fuel s i ids d b e g = rw (e, g) refl

  -- With more fuel than pending files the drain of an inbox whose texts are beacons or not JSON
  -- ends. Then either nothing is pending, or the last `get_nowait` raised, and what it left is still
  -- there.
  pub drain-Ends :
      (fuel : ℕ) (s : Inbox)
      → qsize s.directory < fuel
      → All (λ f. IsReadable loads f.1) s.directory.pending
      → Ends (drain loads cooldown clock fuel s)
  unfolding empty is_nil qsize
  drain-Ends zero s h a = absurd (omega arith)
  drain-Ends (suc fuel) s h a = elim (get_nowait_lem loads s.directory) [
    | inl (e, g) ↦ ([], s, (unfold drain in rw e refl), inl (rw e refl))
    | inr (i, ids, text, e, t, g, rest, least) ↦
        let d = without loads i s.directory in
        elim (Option-cases (loads text)) [
          | inl bad ↦
              let g' : get_nowait loads s.directory ≡ (d, raised) = g ∙ rw (parsed, bad) refl in
              ([], record s { directory = d }, drain-bad fuel s i ids d e g', inr (s.directory, g'))
          | inr (ill_formed, other) ↦
              absurd (All-read_text (IsReadable loads) i text s.directory.pending a t other)
          | inr (beacon b, good) ↦
              let g' : get_nowait loads s.directory ≡ (d, got (beacon b)) =
                g ∙ rw (parsed, good) refl in
              let next = admit loads cooldown clock b d s in
              let fewer : qsize next.1.directory < fuel =
                rw (admit-directory b d s, rest) (omega (arith, rw e at h)) in
              subst Ends (sym (drain-good fuel s i ids d b e g')) (
                keep-Ends next.0 b _ (
                  drain-Ends fuel next.1 fewer (
                    subst (λ x. All (λ f. IsReadable loads f.1) x.pending)
                      (sym (admit-directory b d s))
                      (All-unlink (IsReadable loads) i s.directory.pending a))))
        ]
  ]
