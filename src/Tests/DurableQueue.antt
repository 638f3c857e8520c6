-- ===== src/Tests/DurableQueue.antt =====
-- Runs of automation/durable_queue.py with two entries that JSON can hold, and two processes.
use socio_workspace.Base.{
  ℕ, zero, suc, ◌+◌, ◌≤◌, ◌≡◌, refl, true, Option, none, some, List, [], ◌∷◌, String, str_eq, arith,
  subst, some-inj, if◌then◌else◌,
}
use socio_workspace.DurableQueue.{
  ItemId, Directory, before, same, got, queue_empty, pending_paths, sort_paths, insert_path, unlink,
  read_text, rename_to_claim, unlink_claim,
}
use socio_workspace.DurableQueue.Behaviour.{TakesFirst, get_nowait_lem}
use socio_workspace.DurableQueue.Fifo.{
  Request, put_entry, take_entry, is_empty, size, peek, stored, not_stored, taken, flag, count,
  entries, fifo_replies, disk_replies, disk_replies-fifo_replies, new-Represents,
}
use socio_workspace.DurableQueue.Consumers.{
  idle, trying, holding, unlinked, crashed, Shared, finish, advance, named, System, add_pending,
  Step, write, move, crash, Steps, done, then_step, idle_all, start,
}
use socio_workspace.DurableQueue.Consumers
use socio_workspace.DurableQueue.Consumers.Conserved.{claims, hand, in_hand, holds, holders}
use socio_workspace.DurableQueue.Consumers.Once.{conserved, returned_once}
use socio_workspace.DurableQueue.Consumers.Crashed.{crash_loses}

abbrev dumps : ℕ → Option String
dumps zero = some "zero"
dumps (suc zero) = some "one"
dumps (suc (suc n)) = none

abbrev loads : String → Option ℕ
loads text = if str_eq text "zero" then some 0 else if str_eq text "one" then some 1 else none

abbrev ids : ℕ → ItemId
ids n = record { stamp = n; uuid = 5 }

clock : (n : ℕ) → before (ids n) (ids (suc n)) ≡ true
unfolding before
clock n = ground arith

reads_back : (n : ℕ) (s text : String) → loads s ≡ some n → some s ≡ some text → loads text ≡ some n
reads_back n s text e h = subst (λ t. loads t ≡ some n) (some-inj s text h) e

round_trip : (entry : ℕ) (text : String) → dumps entry ≡ some text → loads text ≡ some entry
round_trip zero text h = reads_back 0 "zero" text refl h
round_trip (suc zero) text h = reads_back 1 "one" text refl h
round_trip (suc (suc n)) text h = absurd (none_some text h)
  where
    none_some : (text : String) → none ≡ some text → ⊥
    none_some text h = cc

abbrev new_directory : Directory
new_directory = record { pending = []; claimed = [] }

abbrev requests : List (Request ℕ)
requests =
    put_entry 1
    ∷ put_entry 7
    ∷ put_entry 0
    ∷ size
    ∷ take_entry
    ∷ peek
    ∷ take_entry
    ∷ is_empty
    ∷ take_entry
    ∷ []

disk_replies-fifo_replies_example :
    disk_replies dumps loads ids requests (new_directory, 0)
    ≡ stored
      ∷ not_stored
      ∷ stored
      ∷ count 2
      ∷ taken (got 1)
      ∷ entries (0 ∷ [])
      ∷ taken (got 0)
      ∷ flag true
      ∷ taken queue_empty
      ∷ []
unfolding fifo_replies
disk_replies-fifo_replies_example =
    disk_replies-fifo_replies dumps loads ids clock round_trip requests (new_directory, 0) []
      (new-Represents dumps loads ids 0)

-- The older file stands second, and is not JSON.
abbrev pub spoiled : Directory
spoiled = record { pending = (ids 4, "one") ∷ (ids 2, "{") ∷ []; claimed = [] }

get_nowait_lem_example : TakesFirst loads spoiled
get_nowait_lem_example = get_nowait_lem loads spoiled

-- One file; the second process loses the race for it.
abbrev s1 : System
s1 = record {
  shared = add_pending (ids 3, "one") (start 2).shared;
  written = (ids 3, "one") ∷ [];
  consumers = idle ∷ idle ∷ [];
}

abbrev s2 : System
s2 = record s1 { consumers = trying (ids 3 ∷ []) ∷ idle ∷ [] }

abbrev s3 : System
s3 = record s1 { consumers = trying (ids 3 ∷ []) ∷ trying (ids 3 ∷ []) ∷ [] }

abbrev s4 : System
s4 = record s1 {
  shared = record {
    directory = record { pending = []; claimed = (ids 3, "one") ∷ [] };
    returned = [];
    lost = [];
  };
  consumers = holding (ids 3) ∷ trying (ids 3 ∷ []) ∷ [];
}

abbrev s5 : System
s5 = record s4 { consumers = holding (ids 3) ∷ trying [] ∷ [] }

-- The claimant has read and unlinked the file, and then returned it.
abbrev s6 : System
s6 = record s5 {
  shared = record { directory = new_directory; returned = []; lost = [] };
  consumers = unlinked (ids 3, "one") ∷ trying [] ∷ [];
}

abbrev s7 : System
s7 = record s6 {
  shared = record { directory = new_directory; returned = (ids 3, "one") ∷ []; lost = [] };
  consumers = idle ∷ trying [] ∷ [];
}

raced : Steps loads (start 2) s5
unfolding advance rename_to_claim read_text unlink same pending_paths sort_paths insert_path
    idle_all Consumers.count
raced =
    then_step {t = s4}
      (then_step {t = s3}
        (then_step {t = s2}
          (then_step {t = s1} (then_step {t = start 2} done (write (ids 3) "one" refl))
            (move [] idle (idle ∷ []) refl))
          (move (trying (ids 3 ∷ []) ∷ []) idle [] refl))
        (move [] (trying (ids 3 ∷ [])) (trying (ids 3 ∷ []) ∷ []) refl))
      (move (holding (ids 3) ∷ []) (trying (ids 3 ∷ [])) [] refl)

read_one : Steps loads (start 2) s6
unfolding advance unlink_claim unlink read_text same
read_one = then_step {t = s5} raced (move [] (holding (ids 3)) (trying [] ∷ []) refl)

finished : Steps loads (start 2) s7
unfolding advance finish
finished = then_step {t = s6} read_one (move [] (unlinked (ids 3, "one")) (trying [] ∷ []) refl)

returned_once_example :
    Consumers.count (named (ids 3)) s7.shared.returned + holders (ids 3) s7.consumers ≤ 1
returned_once_example = returned_once loads 2 s7 (ids 3) finished

-- The claimant dies before it returns; the other process goes on.
abbrev s8 : System
s8 = record s6 { consumers = crashed (unlinked (ids 3, "one")) ∷ trying [] ∷ [] }

abbrev s9 : System
s9 = record s6 { consumers = crashed (unlinked (ids 3, "one")) ∷ idle ∷ [] }

died : Steps loads (start 2) s8
died = then_step {t = s6} read_one (crash [] (unlinked (ids 3, "one")) (trying [] ∷ []) refl)

conserved_example :
    Consumers.count (named (ids 3)) s8.written
    ≡ Consumers.count (named (ids 3)) s8.shared.directory.pending
      + (Consumers.count (named (ids 3)) s8.shared.directory.claimed
          + (in_hand (named (ids 3)) s8.consumers
              + (Consumers.count (named (ids 3)) s8.shared.returned
                  + Consumers.count (named (ids 3)) s8.shared.lost)))
conserved_example = conserved loads 2 s8 (named (ids 3)) died

went_on : Steps loads s8 s9
unfolding advance
went_on =
    then_step {t = s8} done (move (crashed (unlinked (ids 3, "one")) ∷ []) (trying []) [] refl)

held_one : holds (ids 3) (unlinked (ids 3, "one")) ≡ 1
unfolding holds claims hand same
held_one = refl

crash_loses_example :
    (Consumers.count (named (ids 3)) s9.shared.returned ≡ 0)
    × (Consumers.count (named (ids 3)) s9.shared.directory.pending ≡ 0)
crash_loses_example =
    crash_loses loads 2 s8 s9 (ids 3) (unlinked (ids 3, "one")) [] (trying [] ∷ []) died refl
      held_one went_on
