-- ===== src/Server/Ingest/Stages/Selection.antt =====
-- Which records of a chunk the dedup of an ingest lets through.
use mathlib.Core.Path.{subst}
use dlt_matterbeam.Prelude.{
  ◌+◌, String, ◌≡◌, refl, Bool, true, false, not, ◌&&◌, Option, none, some, List, [], ◌∷◌, map,
  arith, ◌==◌, eq_refl, eq_iff, ap, sym, filter, All, contains, length, Bool-cases, inl, inr,
}
use dlt_matterbeam.Json.{Row}
use dlt_matterbeam.Server.Ingest.Stages.{Parsed, select, was_seen, with_id}

-- the lines whose id was not committed before
abbrev pub fresh : Bool → List String → List Parsed → List Parsed
fresh dedup_on seen = filter (λ p. not (was_seen dedup_on seen p.dlt_id))

abbrev pub has_id : Parsed → Bool
has_id p = elim (p.dlt_id) [ none ↦ false | some _ ↦ true ]

module _ (dedup_on : Bool) (seen : List String) (stamped : Parsed → Row) where
  select-records :
      (ps : List Parsed)
      → (select dedup_on seen stamped ps).records ≡ map stamped (fresh dedup_on seen ps)
  unfolding select
  select-records [] = refl
  select-records (p ∷ ps) = elim (Bool-cases (was_seen dedup_on seen p.dlt_id)) [
    | inl old ↦ rw (old) (select-records ps)
    | inr new ↦ rw (new) (ap (λ rs. stamped p ∷ rs) (select-records ps))
  ]

  select-hits :
      (ps : List Parsed)
      → (select dedup_on seen stamped ps).hits + length (select dedup_on seen stamped ps).records
        ≡ length ps
  unfolding select
  select-hits [] = refl
  select-hits (p ∷ ps) = ground (arith, select-hits ps)

  with_id-unseen :
      (o : Option String) (ids : List String) (i : String)
      → was_seen dedup_on seen o ≡ false
      → (dedup_on && (contains i seen && contains i ids)) ≡ false
      → (dedup_on && (contains i seen && contains i (with_id o ids))) ≡ false
  with_id-unseen none ids i new rest = rest
  with_id-unseen (some j) ids i new rest = elim (Bool-cases (i == j)) [
    | inl same ↦
        let at =
          subst (λ x. was_seen dedup_on seen (some x) ≡ false) (sym ((eq_iff i j).0 same)) new in
        ground arith
    | inr other ↦ ground arith
  ]

  select-unseen :
      (ps : List Parsed) (i : String)
      → (dedup_on && (contains i seen && contains i (select dedup_on seen stamped ps).written_ids))
        ≡ false
  unfolding select
  select-unseen [] i = ground arith
  select-unseen (p ∷ ps) i = elim (Bool-cases (was_seen dedup_on seen p.dlt_id)) [
    | inl old ↦ rw (old) (select-unseen ps i)
    | inr new ↦ rw (new) (with_id-unseen p.dlt_id _ i new (select-unseen ps i))
  ]

  -- The records let through are those of the lines whose id was not seen before, each stamped, in
  -- their order; every other line is counted as a hit; and, with dedup on, no id that was seen
  -- before is marked again.
  pub select_lem :
      (ps : List Parsed)
      → ((select dedup_on seen stamped ps).records ≡ map stamped (fresh dedup_on seen ps))
        × ((select dedup_on seen stamped ps).hits + length (select dedup_on seen stamped ps).records
            ≡ length ps)
        × ((i : String)
            → (dedup_on
                && (contains i seen && contains i (select dedup_on seen stamped ps).written_ids))
              ≡ false)
  select_lem ps = (select-records ps, select-hits ps, select-unseen ps)

module _ (seen : List String) (stamped : Parsed → Row) (p : Parsed) (ps : List Parsed) where
  written-old :
      was_seen true seen p.dlt_id ≡ true
      → (select true seen stamped (p ∷ ps)).written_ids ≡ (select true seen stamped ps).written_ids
  unfolding select
  written-old old = rw (old) refl

  written-new :
      was_seen true seen p.dlt_id ≡ false
      → (select true seen stamped (p ∷ ps)).written_ids
        ≡ with_id p.dlt_id (select true seen stamped ps).written_ids
  unfolding select
  written-new new = rw (new) refl

module _ (seen' : List String) where
  -- what is marked is seen after
  id-seen :
      (seen : List String) (o : Option String) (ids : List String)
      → elim o [ none ↦ false | some _ ↦ true ] ≡ true
      → ((i : String) → contains i seen ≡ true → contains i seen' ≡ true)
      → (was_seen true seen o ≡ false
          → (i : String) → contains i (with_id o ids) ≡ true
          → contains i seen' ≡ true)
      → was_seen true seen' o ≡ true
  id-seen seen none ids has old new = ground arith
  id-seen seen (some i) ids has old new = elim (Bool-cases (contains i seen)) [
    | inl at ↦ old i at
    | inr unseen ↦ new unseen i (rw (eq_refl i) refl)
  ]

  with_id-more :
      (o : Option String) (ids : List String) (i : String)
      → contains i ids ≡ true
      → contains i (with_id o ids) ≡ true
  with_id-more none ids i at = at
  with_id-more (some j) ids i at = ground arith

-- nothing is let through where all was seen or marked before
pub select-again :
    (seen seen' : List String) (stamped stamped' : Parsed → Row) (ps : List Parsed)
    → All (λ p. has_id p ≡ true) ps
    → ((i : String) → contains i seen ≡ true → contains i seen' ≡ true)
    → ((i : String)
        → contains i (select true seen stamped ps).written_ids ≡ true
        → contains i seen' ≡ true)
    → (select true seen' stamped' ps).records ≡ []
unfolding select
select-again seen seen' stamped stamped' [] ids old new = refl
select-again seen seen' stamped stamped' (p ∷ ps) ids old new =
    let rest = (select true seen stamped ps).written_ids in
    let new_id : was_seen true seen p.dlt_id ≡ false
        → (i : String) → contains i (with_id p.dlt_id rest) ≡ true
        → contains i seen' ≡ true =
      λ fresh_id i at.
        new i
          (subst (λ w. contains i w ≡ true) (sym (written-new seen stamped p ps fresh_id)) at) in
    let new_rest : (i : String) → contains i rest ≡ true → contains i seen' ≡ true = λ i at.
      elim (Bool-cases (was_seen true seen p.dlt_id)) [
        | inl was ↦
            new i (subst (λ w. contains i w ≡ true) (sym (written-old seen stamped p ps was)) at)
        | inr not_yet ↦ new_id not_yet i (with_id-more seen' p.dlt_id rest i at)
      ] in
    rw (id-seen seen' seen p.dlt_id rest ids.0 old new_id)
      (select-again seen seen' stamped stamped' ps ids.1 old new_rest)
