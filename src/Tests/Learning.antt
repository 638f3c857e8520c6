-- ===== src/Tests/Learning.antt =====
-- Runs of automation/learning.py on two receipts of a fix that did not resolve.
use socio_workspace.Base.{
  ℕ, ◌≡◌, refl, Option, none, some, [], ◌∷◌, String, str_eq, arith, if◌then◌else◌,
}
use socio_workspace.Policy.{default_policy}
use socio_workspace.Responder.{Receipt}
use socio_workspace.Responder.Acts.{failed_outcome}
use socio_workspace.DurableQueue.{Directory, ItemId, peek_all}
use socio_workspace.Learning.{analyze, demote, below, index}
use socio_workspace.Learning.Advice.{Advises, analyze-Advises}

abbrev failed : Receipt
failed = record {
  beacon_kind = "mirror_drift";
  verdict = some "sealed";
  action = "auto_fix";
  n_signals = 1;
  execution = some failed_outcome;
}

abbrev parse : String → Option Receipt
parse text = if str_eq text "failed" then some failed else none

abbrev stamped : ℕ → ItemId
stamped n = record { stamp = n; uuid = 5 }

abbrev decisions : Directory
decisions = record { pending = (stamped 1, "failed") ∷ (stamped 0, "failed") ∷ []; claimed = [] }

demoted : demote "sealed" ≡ some "probable"
unfolding demote below index
demoted = refl

analyze-Advises_example :
    Advises default_policy 2 5000
      (peek_all parse decisions)
      (analyze default_policy 2 5000 parse decisions)
analyze-Advises_example = analyze-Advises default_policy 2 5000 parse decisions (omega arith)
