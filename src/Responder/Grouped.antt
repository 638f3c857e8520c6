-- ===== src/Responder/Grouped.antt =====
-- The subjects that `run_once` of automation/responder.py decides.
use socio_workspace.Base.{
  ℕ, ◌+◌, ◌≡◌, inl, inr, refl, sym, ◌∙◌, subst, Bool, Option, none, some, List, [], ◌∷◌, ◌++◌,
  String, str_eq, eq_iff, arith, Bool-cases, Option-cases, if◌then◌else◌, All, All-append, some-inj,
}
use socio_workspace.Base.Dict.{Dict, get, put, IsUnique, IsUnique-put}
use socio_workspace.Responder.{Beacon}
use socio_workspace.Responder.Cycle.{system_of, Subject, append_to, group_from, group_by_system}

module _ (t : Beacon → Bool) where
  -- How many beacons pass the test.
  pub number : List Beacon → ℕ
  number [] = 0
  number (b ∷ beacons) = (if t b then 1 else 0) + number beacons

  number-append : (xs ys : List Beacon) → number (xs ++ ys) ≡ number xs + number ys
  unfolding number
  number-append [] ys = omega arith
  number-append (x ∷ xs) ys = omega (arith, number-append xs ys)

  in_subject : Subject → ℕ
  in_subject (b, rest) = number (b ∷ rest)

  in_entry : Option Subject → ℕ
  in_entry none = 0
  in_entry (some subject) = in_subject subject

  pub in_groups : Dict Subject → ℕ
  in_groups [] = 0
  in_groups ((k, subject) ∷ groups) = in_subject subject + in_groups groups

  in_groups-put :
      (groups : Dict Subject) (k : String) (v : Subject)
      → in_groups (put groups k v) + in_entry (get groups k) ≡ in_groups groups + in_subject v
  unfolding in_groups in_entry put get
  in_groups-put [] k v = omega arith
  in_groups-put ((j, w) ∷ groups) k v = elim (Bool-cases (str_eq j k)) [
    | inl hit ↦ rw hit (omega arith)
    | inr miss ↦ rw miss (omega (arith, in_groups-put groups k v))
  ]

  in_append_to :
      (b : Beacon) (old : Option Subject)
      → in_subject (append_to b old) ≡ in_entry old + number (b ∷ [])
  unfolding in_subject in_entry append_to number
  in_append_to b none = omega arith
  in_append_to b (some (c, rest)) = omega (arith, number-append (c ∷ rest) (b ∷ []))

  in_group_from :
      (survivors : List Beacon) (groups : Dict Subject)
      → in_groups (group_from survivors groups) ≡ in_groups groups + number survivors
  unfolding group_from number
  in_group_from [] groups = omega arith
  in_group_from (b ∷ survivors) groups =
      let k = system_of b in
      let v = append_to b (get groups k) in
      omega (
        arith,
        in_group_from survivors (put groups k v),
        in_groups-put groups k v,
        in_append_to b (get groups k),
      )

-- All beacons of the group report on the system.
abbrev pub IsSubject : String → Subject → Type 0
IsSubject k (b, rest) = All (λ c. system_of c ≡ k) (b ∷ rest)

abbrev pub AreSubjects : Dict Subject → Type 0
AreSubjects groups = All (λ e. IsSubject e.0 e.1) groups

AreSubjects-put :
    (groups : Dict Subject) (k : String) (v : Subject)
    → AreSubjects groups
    → IsSubject k v
    → AreSubjects (put groups k v)
unfolding put
AreSubjects-put [] k v a s = (s, tt)
AreSubjects-put ((j, w) ∷ groups) k v a s = elim (Bool-cases (str_eq j k)) [
  | inl hit ↦ rw hit (subst (λ x. IsSubject x v) (sym ((eq_iff j k).0 hit)) s, a.1)
  | inr miss ↦ rw miss (a.0, AreSubjects-put groups k v a.1 s)
]

AreSubjects-get :
    (groups : Dict Subject) (k : String) (v : Subject)
    → AreSubjects groups
    → get groups k ≡ some v
    → IsSubject k v
unfolding get
AreSubjects-get [] k v a h = absurd (ground arith)
AreSubjects-get ((j, w) ∷ groups) k v a h = elim (Bool-cases (str_eq j k)) [
  | inl hit ↦
      let same : w ≡ v = some-inj w v (rw hit at h) in
      subst (λ x. IsSubject k x) same (subst (λ x. IsSubject x w) ((eq_iff j k).0 hit) (a.0))
  | inr miss ↦ AreSubjects-get groups k v a.1 (rw miss at h)
]

append_to-IsSubject :
    (b : Beacon) (groups : Dict Subject)
    → AreSubjects groups
    → IsSubject (system_of b) (append_to b (get groups (system_of b)))
unfolding append_to
append_to-IsSubject b groups a = elim (Option-cases (get groups (system_of b))) [
  | inl e ↦ rw e (refl, tt)
  | inr ((c, rest), e) ↦ rw e (
      All-append (λ x. system_of x ≡ system_of b) (c ∷ rest) (b ∷ [])
        (AreSubjects-get groups (system_of b) (c, rest) a e) (refl, tt))
]

group_from-AreSubjects :
    (survivors : List Beacon) (groups : Dict Subject)
    → IsUnique groups
    → AreSubjects groups
    → IsUnique (group_from survivors groups) × AreSubjects (group_from survivors groups)
unfolding group_from
group_from-AreSubjects [] groups u a = (u, a)
group_from-AreSubjects (b ∷ survivors) groups u a =
    let k = system_of b in
    let v = append_to b (get groups k) in
    group_from-AreSubjects survivors (put groups k v) (IsUnique-put groups k v u)
      (AreSubjects-put groups k v a (append_to-IsSubject b groups a))

-- The groups are the survivors, sorted by system.
abbrev pub IsGrouping : List Beacon → Dict Subject → Type 0
IsGrouping survivors groups =
    IsUnique groups
    × AreSubjects groups
    × ((t : Beacon → Bool) → in_groups t groups ≡ number t survivors)

-- The groups of the survivors have different systems, the beacons of a group all report on its system, and for
-- every test as many beacons of the groups pass it as of the survivors: none is lost or doubled.
pub group_by_system-IsGrouping :
    (survivors : List Beacon) → IsGrouping survivors (group_by_system survivors)
unfolding group_by_system in_groups
group_by_system-IsGrouping survivors =
    let (u, a) = group_from-AreSubjects survivors [] tt tt in
    (u, a, λ t. in_group_from t survivors [] ∙ omega arith)
