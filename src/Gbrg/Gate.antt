-- ===== src/Gbrg/Gate.antt =====
-- gbrg/governance/gate.py: the content proposal, the authority gate and their meet.
-- Texts of reasons are kept as the data that they are made of. The process of `authorize.py`, which
-- is another repository's, and the clock enter as arguments; SHA-256 over the canonical JSON of the
-- core is the parameter `seal`.
pub mod Meet
use socio_workspace.Base.{
  ℕ, ◌+◌, ◌==◌, Bool, true, false, not, ◌&&◌, ◌||◌, Option, none, some, List, [], ◌∷◌, ◌++◌, String,
  str_eq, leb, ltb, if◌then◌else◌,
}

abbrev pub million : ℕ
million = 1_000_000

-- 0.20 and 0.60, in millionths.
abbrev pub blast_include_floor : ℕ
blast_include_floor = 200_000

abbrev pub blast_high_risk : ℕ
blast_high_risk = 600_000

-- What an artifact gives for `blast_radius`. A `bool`, a null or a text is `not_a_number`; a finite
-- number is negative or a count of millionths.
pub data BlastRadius : Type 0 where
  no_radius not_a_number not_finite negative : BlastRadius
  millionths : ℕ → BlastRadius

-- What an artifact gives for `dependents_count`; a null counts as absent.
pub data DependentsCount : Type 0 where
  no_count not_an_int negative_int : DependentsCount
  count : ℕ → DependentsCount

-- The fields that are read. `epistemic_level` is the claim's, and empty if it has none.
pub record ProofArtifact : Type 0 where
  pub cell_id : String
  pub proof_id : String
  pub epistemic_level : String
  pub status : String
  pub tested : Bool
  pub generated : Bool
  pub blast_radius : BlastRadius
  pub dependents_count : DependentsCount

pub data Verdict : Type 0 where
  include exclude : Verdict

pub data Priority : Type 0 where
  high normal deprioritized not_applicable : Priority

pub data Unverifiable : Type 0 where
  radius_not_numeric radius_not_finite radius_out_of_range : Unverifiable
  count_not_int count_negative : Unverifiable

pub data Warrant : Type 0 where
  dead : Warrant
  unverifiable : Unverifiable → Warrant
  high_risk above_floor below_floor : Warrant

pub record Proposal : Type 0 where
  pub verdict : Verdict
  pub priority : Priority
  pub reason : Warrant

-- `_validate_blast_radius(proof_artifact.get("blast_radius", 0.0))`
unfoldable pub validate_blast_radius : BlastRadius → Option Unverifiable
validate_blast_radius no_radius = none
validate_blast_radius not_a_number = some radius_not_numeric
validate_blast_radius not_finite = some radius_not_finite
validate_blast_radius negative = some radius_out_of_range
validate_blast_radius (millionths n) = if ltb million n then some radius_out_of_range else none

unfoldable pub validate_dependents_count : DependentsCount → Option Unverifiable
validate_dependents_count no_count = none
validate_dependents_count not_an_int = some count_not_int
validate_dependents_count negative_int = some count_negative
validate_dependents_count (count n) = none

-- The first reason, if there is one.
unfoldable pub unverifiable_reason : ProofArtifact → Option Unverifiable
unfolding validate_blast_radius validate_dependents_count
unverifiable_reason a = elim (validate_blast_radius a.blast_radius) [
  | some r ↦ some r
  | none ↦ validate_dependents_count a.dependents_count
]

-- `float(blast_raw or 0.0)`, once the radius is known to be valid.
unfoldable pub blast : BlastRadius → ℕ
blast (millionths n) = n
blast _ = 0

unfoldable pub is_dead : ProofArtifact → Bool
is_dead a =
    str_eq a.epistemic_level "rejected" || str_eq a.status "FAILED" || str_eq a.status "BLOCKED"

unfoldable pub weak_evidence : ProofArtifact → Bool
weak_evidence a =
    not a.tested
    || str_eq a.epistemic_level "speculative"
    || str_eq a.epistemic_level "synthetic"
    || str_eq a.epistemic_level "empirical"

-- The rules for a live cell with valid numbers.
unfoldable pub score : ProofArtifact → Proposal
unfolding blast weak_evidence
score a =
    let b = blast a.blast_radius in
    if leb blast_high_risk b && weak_evidence a
    then record { verdict = include; priority = high; reason = high_risk }
    else if leb blast_include_floor b
    then record {
      verdict = include;
      priority = if a.generated then deprioritized else normal;
      reason = above_floor;
    }
    else record { verdict = exclude; priority = not_applicable; reason = below_floor }

unfoldable pub decide_inclusion : ProofArtifact → Proposal
unfolding is_dead unverifiable_reason score
decide_inclusion a =
    if is_dead a
    then record { verdict = exclude; priority = not_applicable; reason = dead }
    else elim (unverifiable_reason a) [
      | some r ↦ record { verdict = include; priority = high; reason = unverifiable r }
      | none ↦ score a
    ]

-- The decision that `authorize.py` prints: an object that is not empty.
pub record Payload : Type 0 where
  pub verdict : Option String
  pub reason_code : Option String
  pub receipt_hash : Option String

-- How the subprocess ends. No payload means an empty or unreadable output; a signal is a negative
-- return code.
pub data Process : Type 0 where
  not_started : Process
  signalled : Option Payload → Process
  exited : ℕ → Option Payload → Process

unfoldable pub exit_verdict : ℕ → String
exit_verdict code = if code == 0 then "allow" else if code == 3 then "require-review" else "deny"

-- The payload's own verdict, or that of the exit code.
unfoldable pub payload_verdict : Option String → String → String
payload_verdict none exit = exit
payload_verdict (some v) exit = v

-- The stricter of the two; a disagreement denies.
unfoldable pub settle_verdict : String → String → String
settle_verdict exit payload =
    if str_eq exit "deny" || str_eq payload "deny"
    then "deny"
    else if str_eq exit payload
    then exit
    else "deny"

unfoldable pub read_decision : String → Option Payload → String × Payload
unfolding settle_verdict payload_verdict
read_decision exit none = (
  settle_verdict exit exit,
  record { verdict = some exit; reason_code = some "no_decision_payload"; receipt_hash = none },
)
read_decision exit (some p) = (settle_verdict exit (payload_verdict p.verdict exit), p)

unfoldable pub authorize_inclusion : Process → String × Payload
unfolding read_decision exit_verdict
authorize_inclusion not_started = (
  "deny",
  record {
    verdict = some "deny";
    reason_code = some "authorize_invocation_failed";
    receipt_hash = none;
  },
)
authorize_inclusion (signalled p) = read_decision "deny" p
authorize_inclusion (exited code p) = read_decision (exit_verdict code) p

pub data Because : Type 0 where
  content : Warrant → Because
  fail_closed : String → Option String → Warrant → Because
  allowed : Warrant → Because

pub record Decision : Type 0 where
  pub record_type : String
  pub schema_version : String
  pub agent_ref : String
  pub action : String
  pub cell_id : String
  pub epistemic_level : String
  pub proof_id : String
  pub verdict : Verdict
  pub included : Bool
  pub reason : Because
  pub priority : Priority
  pub content_verdict : Verdict
  pub authority_verdict : String
  pub authority_reason_code : String
  pub authority_receipt : Option String
  pub decided_at : String

-- A decision with its receipt, as `to_dict` hands it to the ledger.
pub record Sealed : Type 0 where
  pub core : Decision
  pub receipt : String

-- The final verdict and its reason.
unfoldable pub meet : Proposal → String → Payload → Verdict × Because
meet p authority raw = elim p.verdict [
  | exclude ↦ (exclude, content p.reason)
  | include ↦
      if str_eq authority "allow"
      then (include, allowed p.reason)
      else (exclude, fail_closed authority raw.reason_code p.reason)
]

unfoldable pub is_include : Verdict → Bool
is_include include = true
is_include exclude = false

unfoldable pub text_or_empty : Option String → String
text_or_empty none = ""
text_or_empty (some s) = s

-- `gate_inclusion` up to the append to the ledger.
unfoldable pub gate_inclusion :
    (Decision → String) → String → String → Process → ProofArtifact → Sealed
unfolding decide_inclusion authorize_inclusion meet is_include text_or_empty
gate_inclusion seal agent_ref now process a =
    let p = decide_inclusion a in
    let (authority, raw) = authorize_inclusion process in
    let (final, reason) = meet p authority raw in
    let core : Decision = record {
      record_type = "ContextInclusionDecision";
      schema_version = "gbrg.governance.context-inclusion-decision.v0.1";
      agent_ref = agent_ref;
      action = "memory";
      cell_id = a.cell_id;
      epistemic_level = a.epistemic_level;
      proof_id = a.proof_id;
      verdict = final;
      included = is_include final;
      reason = reason;
      priority = if is_include final then p.priority else not_applicable;
      content_verdict = p.verdict;
      authority_verdict = authority;
      authority_reason_code = text_or_empty raw.reason_code;
      authority_receipt = raw.receipt_hash;
      decided_at = now;
    } in
    record { core = core; receipt = seal core }
