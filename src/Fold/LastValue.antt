-- ===== src/Fold/LastValue.antt =====
-- What the fold keeps of a key: its last value.
use dlt_matterbeam.Prelude.{
  String, ◌≡◌, refl, sym, ap, ◌∙◌, Bool, true, false, Option, none, some, List, [], ◌∷◌, ◌++◌, ◌==◌,
  Dict, lookup, lookup-insert, lookup-remove, All, All-append, is_empty, ◌⊎◌, if◌then◌else◌,
  Bool-cases, inl, inr,
}
use dlt_matterbeam.Json.{Json, Row}
use dlt_matterbeam.Exec.{ok, err}
use dlt_matterbeam.Fold.{Fact, is_tombstone, replay, key_of, fold_from, fold, keyed}

-- facts whose metadata reads
abbrev pub IsReadable : List Fact → Type 0
IsReadable = All (λ fact. (t : Bool) × (is_tombstone fact.1 ≡ ok t))

abbrev pub is_dead : Row → Bool
is_dead r = elim (is_tombstone r) [ ok t ↦ t | err _ ↦ false ]

module _ (show : Option Json → String) (key_fields : List String) where
  -- the value of a key after some facts, from the value before them
  abbrev pub last_value : String → Option Row → List Fact → Option Row
  last_value k before [] = before
  last_value k before (fact ∷ facts) =
      last_value k
        (if key_of show key_fields fact.1 == k
          then (if is_dead fact.1 then none else some fact.1)
          else before)
        facts

  replay-lookup :
      (k key : String) (r : Row) (t : Bool) (state : Dict Row)
      → lookup k (replay key r t state)
        ≡ (if key == k then (if t then none else some r) else lookup k state)
  replay-lookup k key r true state = lookup-remove key k state
  replay-lookup k key r false state = lookup-insert key k r state

  fold_from-last_value :
      (state : Dict Row) (facts : List Fact)
      → IsReadable facts
      → (out : Dict Row) × (fold_from show key_fields state facts ≡ ok out)
        × ((k : String) → lookup k out ≡ last_value k (lookup k state) facts)
  unfolding fold_from
  fold_from-last_value state [] readable = (state, refl, λ k. refl)
  fold_from-last_value state (fact ∷ facts) readable =
      let (t, at) = readable.0 in
      let key = key_of show key_fields fact.1 in
      let dead : is_dead fact.1 ≡ t = rw (is_dead, at) refl in
      let (out, folds, values) =
        fold_from-last_value (replay key fact.1 t state) facts readable.1 in
      (
        out,
        rw (at) folds,
        λ k.
            values k
            ∙ ap (λ o. last_value k o facts)
                (replay-lookup k key fact.1 t state
                  ∙ ap (λ b. if key == k then (if b then none else some fact.1) else lookup k state)
                      (sym dead)),
      )

  -- The fold of a keyed table whose metadata reads returns a state, and the state has for each key
  -- the last fact with that key, or nothing where that is a tombstone or there is none.
  pub fold-last_value :
      (facts : List Fact)
      → is_empty key_fields ≡ false
      → IsReadable facts
      → (out : Dict Row) × (fold show facts key_fields ≡ ok (keyed out))
        × ((k : String) → lookup k out ≡ last_value k none facts)
  unfolding fold
  fold-last_value facts with_keys readable =
      let (out, folds, values) = fold_from-last_value [] facts readable in
      (out, rw (with_keys, folds) refl, values)

  last_value-append :
      (k : String) (xs ys : List Fact) (before : Option Row)
      → last_value k before (xs ++ ys) ≡ last_value k (last_value k before xs) ys
  last_value-append k [] ys before = refl
  last_value-append k (x ∷ xs) ys before = last_value-append k xs ys _

  -- facts leave a key as it was, or decide its value
  last_value-cases :
      (k : String) (ys : List Fact)
      → ((before : Option Row) → last_value k before ys ≡ before)
        ⊎ ((before before' : Option Row) → last_value k before ys ≡ last_value k before' ys)
  last_value-cases k [] = inl (λ before. refl)
  last_value-cases k (y ∷ ys) = elim (last_value-cases k ys) [
    | inr decided ↦ inr (λ before before'. decided _ _)
    | inl kept ↦ elim (Bool-cases (key_of show key_fields y.1 == k)) [
      | inl same ↦ inr (λ before before'. rw (same) refl)
      | inr other ↦ inl (λ before. rw (other) (kept before))
    ]
  ]

  last_value-again :
      (k : String) (before : Option Row) (ys : List Fact)
      → last_value k (last_value k before ys) ys ≡ last_value k before ys
  last_value-again k before ys = elim (last_value-cases k ys) [
    | inl kept ↦ kept (last_value k before ys)
    | inr decided ↦ decided (last_value k before ys) before
  ]

  -- Facts that a retry wrote a second time fold away: the fold of a keyed table has the same value
  -- for each key, whether the last facts stand there once or twice.
  pub fold-again :
      (xs ys : List Fact)
      → is_empty key_fields ≡ false
      → IsReadable xs
      → IsReadable ys
      → (once twice : Dict Row) × (fold show (xs ++ ys) key_fields ≡ ok (keyed once))
        × (fold show (xs ++ (ys ++ ys)) key_fields ≡ ok (keyed twice))
        × ((k : String) → lookup k twice ≡ lookup k once)
  fold-again xs ys with_keys rx ry =
      let reads : Fact → Type 0 = λ fact. (t : Bool) × (is_tombstone fact.1 ≡ ok t) in
      let ryy = All-append reads ys ys ry ry in
      let (once, folds, values) =
        fold-last_value (xs ++ ys) with_keys (All-append reads xs ys rx ry) in
      let (twice, folds', values') =
        fold-last_value (xs ++ (ys ++ ys)) with_keys (All-append reads xs (ys ++ ys) rx ryy) in
      (
        once,
        twice,
        folds,
        folds',
        λ k.
            let before = last_value k none xs in
            values' k
            ∙ (last_value-append k xs (ys ++ ys) none
                ∙ (last_value-append k ys ys before
                    ∙ (last_value-again k before ys
                        ∙ (sym (last_value-append k xs ys none) ∙ sym (values k))))),
      )
