-- ===== src/DurableQueue/Fifo.antt =====
-- A queue as a list of entries, and the queue of automation/durable_queue.py with one user at a time.
use socio_workspace.Base.{
  ℕ, suc, ◌≡◌, inl, inr, refl, sym, ◌∙◌, ap, subst, Bool, true, Option, none, some, List, [], ◌∷◌,
  ◌++◌, String, Option-cases, All, All-append, length,
}
use socio_workspace.DurableQueue.{
  ItemId, Directory, Got, got, queue_empty, before, insert_path, sort_paths, pending_paths,
  read_text, put, get_nowait, empty, qsize, peek_all,
}
use socio_workspace.DurableQueue.Order.{same_refl}
use socio_workspace.DurableQueue.Behaviour.{parsed, get_nowait_lem}
use socio_workspace.DurableQueue.Reads.{
  is_nothing, IsIncreasing, IsIncreasing-append, insert_path_last, All-before_trans, Reads,
  Reads-unlink, Reads-add, Reads-append, read_all-Reads, length-Reads, is_nil-Reads,
}

cons_eq {ℓ} : {A : Type ℓ} {x y : A} {xs ys : List A} → x ≡ y → xs ≡ ys → x ∷ xs ≡ y ∷ ys
cons_eq e h = cc

-- The calls of the queue.
pub data Request (V : Type 0) : Type 0 where
  put_entry : V → Request V
  take_entry is_empty size peek : Request V

-- What a caller sees; the id that `put` returns is left out.
pub data Reply (V : Type 0) : Type 0 where
  stored not_stored : Reply V
  taken : Got V → Reply V
  flag : Bool → Reply V
  count : ℕ → Reply V
  entries : List V → Reply V

-- The specification: a list, the oldest entry first.

module _ {V : Type 0} (dumps : V → Option String) where
  unfoldable pub fifo : Request V → List V → List V × Reply V
  fifo (put_entry entry) q = elim (dumps entry) [
    | none ↦ (q, not_stored)
    | some text ↦ (q ++ (entry ∷ []), stored)
  ]
  fifo take_entry [] = ([], taken queue_empty)
  fifo take_entry (entry ∷ q) = (q, taken (got entry))
  fifo is_empty q = (q, flag (is_nothing q))
  fifo size q = (q, count (length q))
  fifo peek q = (q, entries q)

  -- The replies to a sequence of calls.
  unfoldable pub fifo_replies : List (Request V) → List V → List (Reply V)
  unfolding fifo
  fifo_replies [] q = []
  fifo_replies (r ∷ rs) q = (fifo r q).1 ∷ fifo_replies rs (fifo r q).0

module _ {V : Type 0} (dumps : V → Option String) (loads : String → Option V)
    (ids : ℕ → ItemId) where
  -- The directory and the number of ids that were made.
  abbrev pub Disk : Type 0
  Disk = Directory × ℕ

  unfoldable pub serve : Request V → Disk → Disk × Reply V
  serve (put_entry entry) (d, n) = elim (put dumps (ids n) entry d) [
    | none ↦ ((d, suc n), not_stored)
    | some d' ↦ ((d', suc n), stored)
  ]
  serve take_entry (d, n) = (((get_nowait loads d).0, n), taken (get_nowait loads d).1)
  serve is_empty (d, n) = ((d, n), flag (empty d))
  serve size (d, n) = ((d, n), count (qsize d))
  serve peek (d, n) = ((d, n), entries (peek_all loads d))

  unfoldable pub disk_replies : List (Request V) → Disk → List (Reply V)
  unfolding serve
  disk_replies [] s = []
  disk_replies (r ∷ rs) s = (serve r s).1 ∷ disk_replies rs (serve r s).0

  -- The directory stands for the list: its names increase, are before the next one, and hold it.
  pub record Represents (s : Disk) (q : List V) : Type 0 where
    pub paths : List ItemId
    pub listed : pending_paths s.0 ≡ paths
    pub increasing : IsIncreasing paths
    pub older : All (λ i. before i (ids s.1) ≡ true) paths
    pub reads : Reads loads s.0.pending paths q

  module _ (clock : (n : ℕ) → before (ids n) (ids (suc n)) ≡ true)
      (round_trip : (entry : V) (text : String)
        → dumps entry ≡ some text
        → loads text ≡ some entry) where
    put-Represents :
        (entry : V) (text : String) (s : Disk) (q : List V)
        → dumps entry ≡ some text
        → Represents s q
        → Represents
            (record { pending = (ids s.1, text) ∷ s.0.pending; claimed = s.0.claimed }, suc s.1)
            (q ++ (entry ∷ []))
    unfolding pending_paths sort_paths read_text
    put-Represents entry text s q e r =
        let i = ids s.1 in
        record {
          paths = r.paths ++ (i ∷ []);
          listed = ap (insert_path i) r.listed ∙ insert_path_last i r.paths r.older;
          increasing = IsIncreasing-append r.paths i r.increasing r.older;
          older =
              All-append (λ j. before j (ids (suc s.1)) ≡ true) r.paths (i ∷ [])
                (All-before_trans i (ids (suc s.1)) r.paths (clock s.1) r.older) (clock s.1, tt);
          reads =
              Reads-append loads i entry ((i, text) ∷ s.0.pending) r.paths q
                (Reads-add loads i text s.0.pending r.paths q r.older r.reads)
                (rw (same_refl i) (round_trip entry text e));
        }

    -- A failed `put` uses up an id.
    skip-Represents : (s : Disk) (q : List V) → Represents s q → Represents (s.0, suc s.1) q
    skip-Represents s q r = record {
      paths = r.paths;
      listed = r.listed;
      increasing = r.increasing;
      older = All-before_trans (ids s.1) (ids (suc s.1)) r.paths (clock s.1) r.older;
      reads = r.reads;
    }

    -- What a call gives on the two sides.
    abbrev Agree : Request V → Disk → List V → Type 0
    Agree r s q = ((serve r s).1 ≡ (fifo dumps r q).1) × Represents (serve r s).0 (fifo dumps r q).0

    put-Agree : (entry : V) (s : Disk) (q : List V) → Represents s q → Agree (put_entry entry) s q
    unfolding serve put fifo
    put-Agree entry (d, n) q r = elim (Option-cases (dumps entry)) [
      | inl e ↦ rw (e, serve, put, fifo) (refl, skip-Represents (d, n) q r)
      | inr (text, e) ↦ rw (e, serve, put, fifo) (refl, put-Represents entry text (d, n) q e r)
    ]

    take-nothing : (s : Disk) → Represents s [] → Agree take_entry s []
    unfolding serve fifo
    take-nothing (d, n) r = elim (get_nowait_lem loads d) [
      | inl (h, e) ↦ rw e (refl, r)
      | inr (i, paths, text, h, e, g, rest, least) ↦
          absurd (subst (λ p. Reads loads d.pending p []) (sym r.listed ∙ h) r.reads)
    ]

    take-first :
        (entry : V) (s : Disk) (q : List V)
        → Represents s (entry ∷ q)
        → Agree take_entry s (entry ∷ q)
    unfolding serve fifo
    take-first entry (d, n) q r = elim (get_nowait_lem loads d) [
      | inl (h, e) ↦
          absurd (subst (λ p. Reads loads d.pending p (entry ∷ q)) (sym r.listed ∙ h) r.reads)
      | inr (i, paths, text, h, e, g, rest, least) ↦
          let split : r.paths ≡ i ∷ paths = sym r.listed ∙ h in
          let increasing = subst IsIncreasing split r.increasing in
          let older = subst (λ p. All (λ j. before j (ids n) ≡ true) p) split r.older in
          let reads = subst (λ p. Reads loads d.pending p (entry ∷ q)) split r.reads in
          let parse : loads text ≡ some entry = rw e at (reads.0) in
          rw (g, parse, parsed)
            (
              refl,
              record {
                paths = paths;
                listed = rest;
                increasing = increasing.1;
                older = older.1;
                reads = Reads-unlink loads i d.pending paths q increasing.0 reads.1;
              },
            )
    ]

    view-Agree :
        (s : Disk) (q : List V)
        → Represents s q
        → Agree is_empty s q × Agree size s q × Agree peek s q
    unfolding serve fifo empty qsize peek_all
    view-Agree (d, n) q r = rw (r.listed) (
      (ap flag (is_nil-Reads loads d.pending r.paths q r.reads), r),
      (ap count (length-Reads loads d.pending r.paths q r.reads), r),
      (ap entries (read_all-Reads loads d r.paths q r.reads), r),
    )

    serve-Agree : (r : Request V) (s : Disk) (q : List V) → Represents s q → Agree r s q
    serve-Agree (put_entry entry) s q h = put-Agree entry s q h
    serve-Agree take_entry s [] h = take-nothing s h
    serve-Agree take_entry s (entry ∷ q) h = take-first entry s q h
    serve-Agree is_empty s q h = let (a, b, c) = view-Agree s q h in a
    serve-Agree size s q h = let (a, b, c) = view-Agree s q h in b
    serve-Agree peek s q h = let (a, b, c) = view-Agree s q h in c

    -- If each id that is made is before the next one, and what `json` writes it reads back, then
    -- a directory that stands for a list of entries answers every sequence of calls, made one
    -- after the other, as a first-in first-out list does: `put`, `get_nowait`, `empty`, `qsize`
    -- and `peek_all`, calls on an empty queue and entries that are not JSON included.
    pub disk_replies-fifo_replies :
        (requests : List (Request V)) (s : Disk) (q : List V)
        → Represents s q
        → disk_replies requests s ≡ fifo_replies dumps requests q
    unfolding disk_replies fifo_replies
    disk_replies-fifo_replies [] s q h = refl
    disk_replies-fifo_replies (r ∷ requests) s q h =
        let (reply, next) = serve-Agree r s q h in
        cons_eq reply (disk_replies-fifo_replies requests (serve r s).0 (fifo dumps r q).0 next)

  -- The empty directory stands for the empty list.
  pub new-Represents : (n : ℕ) → Represents (record { pending = []; claimed = [] }, n) []
  unfolding pending_paths sort_paths
  new-Represents n = record { paths = []; listed = refl; increasing = tt; older = tt; reads = tt }
