-- ===== src/Server/Segments/Ids.antt =====
-- The record ids of a segment.
use dlt_matterbeam.Prelude.{
  ℕ, suc, ◌+◌, ◌*◌, ◌≤◌, ◌<◌, ◌≡◌, refl, ap, ◌∙◌, List, [], ◌∷◌, All, arith, length, some,
  get_last?, map,
}
use dlt_matterbeam.Json.{Row}
use dlt_matterbeam.Server.Segments.{with_ids, write_segment, id_of}
use dlt_matterbeam.Server.Segments.Widths.{pack_record_id-fields}

-- each is below the next
abbrev pub Increasing : List (ℕ × Row) → Type 0
Increasing [] = Unit
Increasing (x ∷ []) = Unit
Increasing (x ∷ y ∷ xs) = (x.0 < y.0) × Increasing (y ∷ xs)

-- the ids of one millisecond
abbrev pub IsAt : ℕ → ℕ → Type 0
IsAt ms i = (ms * 10000000000000000000000000 ≤ i) × (i < suc ms * 10000000000000000000000000)

module _ (ms w noise : ℕ) (w_small : w < 100000) (noise_small : noise < 10000000000) where
  with_ids-Increasing :
      (seq : ℕ) (rs : List Row)
      → seq + length rs ≤ 10000000000
      → Increasing (with_ids ms w noise seq rs)
  with_ids-Increasing seq [] fits = tt
  with_ids-Increasing seq (r ∷ []) fits = tt
  with_ids-Increasing seq (r ∷ q ∷ rs) fits = (
    omega (
      arith,
      pack_record_id-fields ms seq w noise (omega arith) w_small noise_small,
      pack_record_id-fields ms (suc seq) w noise (omega arith) w_small noise_small,
    ),
    with_ids-Increasing (suc seq) (q ∷ rs) (omega arith),
  )

  with_ids-IsAt :
      (seq : ℕ) (rs : List Row)
      → seq + length rs ≤ 10000000000
      → All (λ x. IsAt ms x.0) (with_ids ms w noise seq rs)
  with_ids-IsAt seq [] fits = tt
  with_ids-IsAt seq (r ∷ rs) fits =
      let at = pack_record_id-fields ms seq w noise (omega arith) w_small noise_small in
      ((omega (arith, at), omega (arith, at)), with_ids-IsAt (suc seq) rs (omega arith))

with_ids-rows :
    (ms w noise seq : ℕ) (rs : List Row) → map (λ x. x.1) (with_ids ms w noise seq rs) ≡ rs
with_ids-rows ms w noise seq [] = refl
with_ids-rows ms w noise seq (r ∷ rs) = ap (λ xs. r ∷ xs) (with_ids-rows ms w noise (suc seq) rs)

with_ids-last :
    (ms w noise seq : ℕ) (r : Row) (rs : List Row)
    → get_last? (map (λ x. x.0) (with_ids ms w noise seq (r ∷ rs)))
      ≡ some (id_of ms w noise (seq + length rs))
with_ids-last ms w noise seq r [] = ap (λ n. some (id_of ms w noise n)) (omega arith)
with_ids-last ms w noise seq r (q ∷ rs) =
    with_ids-last ms w noise (suc seq) q rs ∙ ap (λ n. some (id_of ms w noise n)) (omega arith)

write_segment_ids :
    (ms w noise : ℕ) (r : Row) (rs : List Row)
    → w < 100000
    → noise < 10000000000
    → length (r ∷ rs) ≤ 10000000000
    → (map (λ x. x.1) (write_segment ms w noise r rs).facts ≡ r ∷ rs)
      × Increasing (write_segment ms w noise r rs).facts
      × (get_last? (map (λ x. x.0) (write_segment ms w noise r rs).facts)
          ≡ some (write_segment ms w noise r rs).last_id)
unfolding write_segment
write_segment_ids ms w noise r rs w_small noise_small fits = (
  with_ids-rows ms w noise 0 (r ∷ rs),
  with_ids-Increasing ms w noise w_small noise_small 0 (r ∷ rs) (omega (arith, fits)),
  with_ids-last ms w noise 0 r rs ∙ ap (λ n. some (id_of ms w noise n)) (omega arith),
)

pub write_segment-IsAt :
    (ms w noise : ℕ) (r : Row) (rs : List Row)
    → w < 100000
    → noise < 10000000000
    → length (r ∷ rs) ≤ 10000000000
    → All (λ x. IsAt ms x.0) (write_segment ms w noise r rs).facts
unfolding write_segment
write_segment-IsAt ms w noise r rs w_small noise_small fits =
    with_ids-IsAt ms w noise w_small noise_small 0 (r ∷ rs) (omega (arith, fits))

-- all of some are below all of others, by their ids
abbrev pub AllBelow : List (ℕ × Row) → List (ℕ × Row) → Type 0
AllBelow xs ys = All (λ x. All (λ y. x.0 < y.0) ys) xs

IsAt-below :
    (ms later i : ℕ) (ys : List (ℕ × Row))
    → ms < later
    → IsAt ms i
    → All (λ y. IsAt later y.0) ys
    → All (λ y. i < y.0) ys
IsAt-below ms later i [] before at all = tt
IsAt-below ms later i (y ∷ ys) before at all =
    (omega (arith, at.1, all.0.0), IsAt-below ms later i ys before at all.1)

AllBelow-IsAt :
    (ms later : ℕ) (xs ys : List (ℕ × Row))
    → ms < later
    → All (λ x. IsAt ms x.0) xs
    → All (λ y. IsAt later y.0) ys
    → AllBelow xs ys
AllBelow-IsAt ms later [] ys before all alls = tt
AllBelow-IsAt ms later (x ∷ xs) ys before all alls =
    (IsAt-below ms later x.0 ys before all.0 alls, AllBelow-IsAt ms later xs ys before all.1 alls)

-- A segment holds the rows in their order, each above the one before it by its record id, the last
-- of them at the last id; and every record id of a segment that begins at a later millisecond is
-- above every one of it, whichever writers and noise the two have. The writer ids have five digits
-- and the noise ten, and a segment has at most 10^10 rows.
pub write_segment_lem :
    (ms later w w' noise noise' : ℕ) (r r' : Row) (rs rs' : List Row)
    → ms < later
    → w < 100000
    → w' < 100000
    → noise < 10000000000
    → noise' < 10000000000
    → length (r ∷ rs) ≤ 10000000000
    → length (r' ∷ rs') ≤ 10000000000
    → let segment = write_segment ms w noise r rs in
      (map (λ x. x.1) segment.facts ≡ r ∷ rs)
      × Increasing segment.facts
      × (get_last? (map (λ x. x.0) segment.facts) ≡ some segment.last_id)
      × AllBelow segment.facts (write_segment later w' noise' r' rs').facts
write_segment_lem ms later w w' noise noise' r r' rs rs' before sw sw' sn sn' fits fits' =
    let (rows, increasing, last) = write_segment_ids ms w noise r rs sw sn fits in
    (
      rows,
      increasing,
      last,
      AllBelow-IsAt ms later _ _ before (write_segment-IsAt ms w noise r rs sw sn fits)
          (write_segment-IsAt later w' noise' r' rs' sw' sn' fits'),
    )
