-- ===== src/Envelope/Sort/Laws.antt =====
-- `sort_rows` of src/dlt_matterbeam/envelope.py, as its caller sees it.
use mathlib.Core.List.{append-nil}
use dlt_matterbeam.Prelude.{
  String, ◌≡◌, sym, ◌∙◌, Bool, true, false, not, some, List, ◌++◌, arith, filter, length,
  length-append, filter-append, length-filter_split, filter-filter_imp, filter-filter-not,
}
use dlt_matterbeam.Json.{Json, Row}
use dlt_matterbeam.Exec.{ok, ok-injective, >>=-eq-ok}
use dlt_matterbeam.Envelope.Sort.{before, key, is_present, sort_by, is_desc, sort_rows}
use dlt_matterbeam.Envelope.Sort.Placed.{sort_by-Sorts}
use dlt_matterbeam.Envelope.Sort.Sorted.{InOrder, Sorts-InOrder}
use dlt_matterbeam.Envelope.Sort.Stable.{Sorts-count, Sorts-stable}

module _ (rows : List Row) (col : String) (direction : Json) {out : List Row}
    (sorted : sort_rows rows (some (col, direction)) ≡ ok out) where
  run :
      (front : List Row) × (sort_by (is_desc direction) col (filter (is_present col) rows)
        ≡ ok front)
      × (out ≡ front ++ filter (λ r. not (is_present col r)) rows)
  unfolding sort_rows
  run = let (front, p, q) = >>=-eq-ok _ _ sorted in (front, p, sym (ok-injective q))

  sort_rows-InOrder :
      (front : List Row) × (out ≡ front ++ filter (λ r. not (is_present col r)) rows)
      × InOrder (is_desc direction) col front
  sort_rows-InOrder =
      let (front, p, q) = run in
      (front, q, Sorts-InOrder (is_desc direction) col (sort_by-Sorts (is_desc direction) col _ p))

  sort_rows_count : (p : Row → Bool) → length (filter p out) ≡ length (filter p rows)
  sort_rows_count p =
      let (front, s, q) = run in
      let present = is_present col in
      rw (q, filter-append p front (filter (λ r. not (present r)) rows), length-append)
        (omega (
          arith,
          Sorts-count (is_desc direction) col p (sort_by-Sorts (is_desc direction) col _ s),
          length-filter_split p present rows,
        ))

  sort_rows_stable :
      (p : Row → Bool)
      → ((x : Row) → p x ≡ true → is_present col x ≡ true)
      → ((x y : Row)
          → p x ≡ true
          → p y ≡ true
          → before (is_desc direction) (key col y) (key col x) ≡ ok false)
      → filter p out ≡ filter p rows
  sort_rows_stable p present tie =
      let (front, s, q) = run in
      rw
        (
          q,
          filter-append p front (filter (λ r. not (is_present col r)) rows),
          filter-filter-not p (is_present col) present rows,
          append-nil,
        )
        (Sorts-stable (is_desc direction) col p tie (sort_by-Sorts (is_desc direction) col _ s)
          ∙ filter-filter_imp p (is_present col) present rows)

  -- Where the sort returns, it is a stable sort of the rows that it was given. The rows that have
  -- the sort column stand first, in its direction: no later one comes before an earlier one. The
  -- rows without it follow, in the order that they had. As many rows pass any test as before; and
  -- those of a test keep their order, if it accepts only rows with the column, none of which comes
  -- before another.
  pub sort_rows_sorts :
      ((front : List Row) × (out ≡ front ++ filter (λ r. not (is_present col r)) rows)
        × InOrder (is_desc direction) col front)
      × ((p : Row → Bool) → length (filter p out) ≡ length (filter p rows))
      × ((p : Row → Bool)
          → ((x : Row) → p x ≡ true → is_present col x ≡ true)
          → ((x y : Row)
              → p x ≡ true
              → p y ≡ true
              → before (is_desc direction) (key col y) (key col x) ≡ ok false)
          → filter p out ≡ filter p rows)
  sort_rows_sorts = (sort_rows-InOrder, sort_rows_count, sort_rows_stable)
