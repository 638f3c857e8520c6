-- ===== src/DurableQueue/Consumers.antt =====
-- Several processes on the queue of automation/durable_queue.py: every `get_nowait` cut into its
-- steps, in any order, with puts and crashes between them. To read a claim and to unlink it is one
-- step: no other process names that file, and a crash between the two leaves what a crash before
-- the read leaves. The return after them is a step of its own.
use socio_workspace.Base.{
  ℕ, zero, suc, ◌≡◌, Bool, true, false, Option, none, some, List, [], ◌∷◌, ◌++◌, String,
  if◌then◌else◌, ◌+◌,
}
use socio_workspace.DurableQueue.{
  ItemId, File, Directory, same, pending_paths, read_text, rename_to_claim, unlink_claim,
}
pub mod Conserved
pub mod Once
pub mod Crashed

-- Where a process stands in `get_nowait`: outside, in the loop with the paths that are left, with
-- a claim that is not read yet, with a file that is read and unlinked but not returned yet, or dead
-- at such a place.
pub data Consumer : Type 0 where
  idle : Consumer
  trying : List ItemId → Consumer
  holding : ItemId → Consumer
  unlinked : File → Consumer
  crashed : Consumer → Consumer

-- The directory, the files whose entries were returned, and those that were claimed and did not
-- parse.
pub record Shared : Type 0 where
  pub directory : Directory
  pub returned : List File
  pub lost : List File

module _ {V : Type 0} (loads : String → Option V) where
  -- The end of the call: the entry is returned, or the exception of a text that does not parse.
  unfoldable pub finish : File → Shared → Shared
  finish (i, text) sh = elim (loads text) [
    | none ↦ record sh { lost = (i, text) ∷ sh.lost }
    | some entry ↦ record sh { returned = (i, text) ∷ sh.returned }
  ]

  -- The next step of a process.
  unfoldable pub advance : Consumer → Shared → Consumer × Shared
  advance idle sh = (trying (pending_paths sh.directory), sh)
  advance (trying []) sh = (idle, sh)
  advance (trying (i ∷ ids)) sh = elim (rename_to_claim i sh.directory) [
    | none ↦ (trying ids, sh)
    | some d ↦ (holding i, record sh { directory = d })
  ]
  advance (holding i) sh = elim (read_text i sh.directory.claimed) [
    | none ↦ (idle, sh)
    | some text ↦ (unlinked (i, text), record sh { directory = unlink_claim i sh.directory })
  ]
  advance (unlinked file) sh = (idle, finish file sh)
  advance (crashed c) sh = (crashed c, sh)

-- The files of the name.
unfoldable pub count : (File → Bool) → List File → ℕ
count p [] = 0
count p (file ∷ files) = if p file then 1 + count p files else count p files

abbrev pub named : ItemId → File → Bool
named i file = same file.0 i

-- The processes, and all files that were put.
pub record System : Type 0 where
  pub shared : Shared
  pub written : List File
  pub consumers : List Consumer

abbrev pub add_pending : File → Shared → Shared
add_pending file sh = record sh {
  directory = record { pending = file ∷ sh.directory.pending; claimed = sh.directory.claimed };
}

module _ {V : Type 0} (loads : String → Option V) where
  -- One step of the system. The id of a new file is not that of another.
  pub data Step (s : System) : System → Type 0 where
    write :
        (i : ItemId) (text : String)
        → count (named i) s.written ≡ 0
        → Step s (record {
          shared = add_pending (i, text) s.shared;
          written = (i, text) ∷ s.written;
          consumers = s.consumers;
        })
    move :
        (xs : List Consumer) (c : Consumer) (ys : List Consumer)
        → s.consumers ≡ xs ++ (c ∷ ys)
        → Step s (record {
          shared = (advance loads c s.shared).1;
          written = s.written;
          consumers = xs ++ ((advance loads c s.shared).0 ∷ ys);
        })
    crash :
        (xs : List Consumer) (c : Consumer) (ys : List Consumer)
        → s.consumers ≡ xs ++ (c ∷ ys)
        → Step s (record s { consumers = xs ++ (crashed c ∷ ys) })

  pub data Steps : System → System → Type 0 where
    done : {s : System} → Steps s s
    then_step : {s t u : System} → Steps s t → Step t u → Steps s u

-- The state in which nothing was put and no process is in a call.
unfoldable pub idle_all : ℕ → List Consumer
idle_all zero = []
idle_all (suc n) = idle ∷ idle_all n

abbrev pub start : ℕ → System
start n = record {
  shared = record { directory = record { pending = []; claimed = [] }; returned = []; lost = [] };
  written = [];
  consumers = idle_all n;
}
