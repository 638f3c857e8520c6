-- ===== src/DurableQueue.antt =====
-- automation/durable_queue.py: a queue of one JSON file per entry. A file name is the stamp and the
-- uuid of the item: both have a fixed number of digits, so that names sort as the pairs do. The
-- directory is the list of its pending `.json` files, in the order in which `glob` finds them, and
-- the list of its `.claimed` files. The temporary file of `put`, which `_pending` leaves out, and
-- `json` are not in the model: `dumps` and `loads` are parameters, and `none` is their exception.
pub mod Order
pub mod Behaviour
pub mod Reads
pub mod Fifo
pub mod Consumers
use socio_workspace.Base.{
  ℕ, Bool, true, false, ◌&&◌, ◌||◌, Option, none, some, List, [], ◌∷◌, map, String, ltb, ◌==◌,
  if◌then◌else◌, length, ◌>>=◌,
}

pub record ItemId : Type 0 where
  pub stamp : ℕ
  pub uuid : ℕ

-- The name and the text.
abbrev pub File : Type 0
File = ItemId × String

pub record Directory : Type 0 where
  pub pending : List File
  pub claimed : List File

-- The order of the names.
unfoldable pub before : ItemId → ItemId → Bool
before a b = ltb a.stamp b.stamp || (a.stamp == b.stamp && ltb a.uuid b.uuid)

unfoldable pub same : ItemId → ItemId → Bool
same a b = a.stamp == b.stamp && a.uuid == b.uuid

unfoldable pub insert_path : ItemId → List ItemId → List ItemId
insert_path i [] = i ∷ []
insert_path i (j ∷ ids) = if before j i then j ∷ insert_path i ids else i ∷ j ∷ ids

-- `sorted`
unfoldable pub sort_paths : List ItemId → List ItemId
sort_paths [] = []
sort_paths (i ∷ ids) = insert_path i (sort_paths ids)

abbrev pub names : List File → List ItemId
names files = map (λ f. f.0) files

-- `_pending`
unfoldable pub pending_paths : Directory → List ItemId
pending_paths d = sort_paths (names d.pending)

-- `read_text`; `none` is `FileNotFoundError`.
unfoldable pub read_text : ItemId → List File → Option String
read_text i [] = none
read_text i ((j, text) ∷ files) = if same j i then some text else read_text i files

-- `unlink(missing_ok=True)`
unfoldable pub unlink : ItemId → List File → List File
unlink i [] = []
unlink i ((j, text) ∷ files) = if same j i then files else (j, text) ∷ unlink i files

-- `os.rename(path, claim)`; `none` is `FileNotFoundError`.
unfoldable pub rename_to_claim : ItemId → Directory → Option Directory
rename_to_claim i d = elim (read_text i d.pending) [
  | none ↦ none
  | some text ↦ some (record { pending = unlink i d.pending; claimed = (i, text) ∷ d.claimed })
]

-- How `get_nowait` ends: with an entry, with `queue.Empty`, or with another exception.
pub data Got (V : Type 0) : Type 0 where
  got : V → Got V
  queue_empty : Got V
  raised : Got V

unfoldable pub unlink_claim : ItemId → Directory → Directory
unlink_claim i d = record d { claimed = unlink i d.claimed }

module _ {V : Type 0} (dumps : V → Option String) where
  -- `put`, with the id that the clock and `uuid4` give; `none` is the exception of `json.dump`,
  -- after which the temporary file is gone.
  unfoldable pub put : ItemId → V → Directory → Option Directory
  put i entry d = elim (dumps entry) [
    | none ↦ none
    | some text ↦ some (record d { pending = (i, text) ∷ d.pending })
  ]

module _ {V : Type 0} (loads : String → Option V) where
  -- `json.loads(claim.read_text())`
  unfoldable pub read_claim : ItemId → Directory → Got V
  read_claim i d = elim (read_text i d.claimed >>= loads) [ none ↦ raised | some entry ↦ got entry ]

  -- The loop of `get_nowait`: claim, read, unlink in any case.
  unfoldable pub claim_first : List ItemId → Directory → Directory × Got V
  claim_first [] d = (d, queue_empty)
  claim_first (i ∷ ids) d = elim (rename_to_claim i d) [
    | none ↦ claim_first ids d
    | some d' ↦ (unlink_claim i d', read_claim i d')
  ]

  unfoldable pub get_nowait : Directory → Directory × Got V
  get_nowait d = claim_first (pending_paths d) d

  -- The loop of `peek_all`.
  unfoldable pub read_all : List ItemId → Directory → List V
  read_all [] d = []
  read_all (i ∷ ids) d = elim (read_text i d.pending >>= loads) [
    | none ↦ read_all ids d
    | some entry ↦ entry ∷ read_all ids d
  ]

  unfoldable pub peek_all : Directory → List V
  peek_all d = read_all (pending_paths d) d

-- `not paths`
unfoldable pub is_nil : List ItemId → Bool
is_nil [] = true
is_nil (_ ∷ _) = false

unfoldable pub empty : Directory → Bool
empty d = is_nil (pending_paths d)

unfoldable pub qsize : Directory → ℕ
qsize d = length (pending_paths d)
