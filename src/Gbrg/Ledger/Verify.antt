-- ===== src/Gbrg/Ledger/Verify.antt =====
-- What the writers append verifies, and what it does not.
use socio_workspace.Base.{
  ℕ, ◌+◌, ◌≡◌, ◌⊎◌, inl, inr, refl, ap, sym, subst, ◌∙◌, Option, some, List, [], ◌∷◌, ◌++◌, String,
  length, arith,
}
use socio_workspace.Gbrg.Gate.{Decision}
use socio_workspace.Gbrg.Ledger.{
  EventCore, Record, event, Break, verified, broken, Heads, Checked, good, bad, check_record,
  and_then, verify_from,
}

module _ (hash_event : EventCore → String) (seal : Decision → String) where
  Checked-cases : (c : Checked) → ((h : Heads) × (c ≡ good h)) ⊎ ((b : Break) × (c ≡ bad b))
  Checked-cases (good h) = inl (h, refl)
  Checked-cases (bad b) = inr (b, refl)

  -- The records are good one after the other, from the heads of the index to the heads `h'`.
  pub data Walk (h' : Heads) : Heads → List Record → Type 0 where
    stop : {h : Heads} → h ≡ h' → Walk h' h []
    step :
        {h : Heads} (r : Record) (records : List Record) (m : Heads)
        → check_record hash_event seal h r ≡ good m
        → Walk h' m records
        → Walk h' h (r ∷ records)

  pub walk_of_verified :
      (i : ℕ) (h : Heads) (records : List Record) (s : Option String)
      → verify_from hash_event seal i h records ≡ verified s
      → (h' : Heads) × (h'.last_seal ≡ s) × Walk h' h records
  unfolding verify_from
  walk_of_verified i h [] s e = (h, ground arith, stop refl)
  walk_of_verified i h (r ∷ records) s e = elim (Checked-cases (check_record hash_event seal h r)) [
    | inl (m, c) ↦
        let (h', last, w) = walk_of_verified (i + 1) m records s (rw (c, and_then) at e) in
        (h', last, step r records m c w)
    | inr (b, c) ↦ absurd (ground arith)
  ]

  pub verified_of_walk :
      {h' : Heads} (i : ℕ) {h : Heads} (records : List Record)
      → Walk h' h records
      → verify_from hash_event seal i h records ≡ verified h'.last_seal
  unfolding verify_from
  verified_of_walk i _ (stop e) = ap (λ x. verified x.last_seal) e
  verified_of_walk i _ (step r records m c w) =
      rw (c, and_then) (verified_of_walk (i + 1) records w)

  pub Walk-append :
      {h' m h : Heads} (xs ys : List Record) → Walk m h xs → Walk h' m ys → Walk h' h (xs ++ ys)
  Walk-append _ ys (stop e) w = rw e w
  Walk-append _ ys (step r records k c v) w =
      step r (records ++ ys) k c (Walk-append records ys v w)

  -- A break after records that are good.
  pub broken_after_walk :
      {m : Heads} (i : ℕ) {h : Heads} (xs : List Record) (r : Record) (b : Break)
      → Walk m h xs
      → check_record hash_event seal m r ≡ bad b
      → verify_from hash_event seal i h (xs ++ r ∷ []) ≡ broken (some (i + length xs)) b
  unfolding verify_from
  broken_after_walk i _ r b (stop e) c =
      let c' = subst (λ x. check_record hash_event seal x r ≡ bad b) (sym e) c in
      rw (c', and_then) (ap (λ k. broken (some k) b) (omega arith))
  broken_after_walk i _ r b (step q records k d w) c =
      rw (d, and_then)
        (broken_after_walk (i + 1) records r b w c ∙ ap (λ k. broken (some k) b) (omega arith))

-- The hash of the last event, or `head` if there is none.
abbrev pub chain_head_of : String → List Record → String
chain_head_of head [] = head
chain_head_of head (event core hash ∷ records) = chain_head_of hash records
chain_head_of head (_ ∷ records) = chain_head_of head records

-- Every record is an event.
abbrev pub IsChain : List Record → Type 0
IsChain [] = Unit
IsChain (event core hash ∷ records) = IsChain records
IsChain (_ ∷ records) = ⊥

module _ (hash_event : EventCore → String) (seal : Decision → String) where
  pub chain_head-Walk :
      {h' h : Heads} (records : List Record)
      → Walk hash_event seal h' h records
      → h'.chain_head ≡ chain_head_of h.chain_head records
  unfolding check_record
  chain_head-Walk _ (stop e) = ap (λ x. x.chain_head) (sym e)
  chain_head-Walk _ (step (event core hash) records m c w) =
      ground (arith, chain_head-Walk records w)
  chain_head-Walk _ (step r records m c w) = ground (arith, chain_head-Walk records w)
