-- ===== src/Suppression.antt =====
-- automation/suppression.py: the store of when each condition was last decided. Times are natural
-- numbers of microseconds. The store is the dict in the file: an entry that is not a number is
-- `none`, and a file that is not there or does not parse is the empty dict.
pub mod Spaced
use socio_workspace.Base.{
  ℕ, ◌+◌, Bool, true, false, Option, none, some, List, [], ◌∷◌, String, ltb, leb, if◌then◌else◌,
  ◌==◌, str_eq,
}
use socio_workspace.Base.Dict.{Dict, get, put}

abbrev pub Store : Type 0
Store = Dict (Option ℕ)

-- Whether the entry is a number, and the time is less than the cooldown after it. An entry in the
-- future counts, as the difference is below zero.
unfoldable pub is_recent : Option (Option ℕ) → ℕ → ℕ → Bool
is_recent none cooldown now = false
is_recent (some none) cooldown now = false
is_recent (some (some last)) cooldown now = ltb now (last + cooldown)

unfoldable pub should_process : String → ℕ → ℕ → Store → Bool × Store
should_process fp cooldown now store =
    if cooldown == 0
    then (true, store)
    else if is_recent (get store fp) cooldown now
    then (false, store)
    else (true, put store fp (some now))

-- The times of the observations that are decided, for observations (condition, time) in a row.
unfoldable pub decided : ℕ → String → List (String × ℕ) → Store → List ℕ
decided cooldown fp [] store = []
decided cooldown fp ((k, now) ∷ seen) store =
    let (ok, store') = should_process k cooldown now store in
    let rest = decided cooldown fp seen store' in
    if ok then (if str_eq k fp then now ∷ rest else rest) else rest
