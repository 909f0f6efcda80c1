-- ===== src/Server/Segments.antt =====
-- tests/fake_matterbeam/segment_store.py: record ids and segments.
pub mod Widths
pub mod Ids
use dlt_matterbeam.Prelude.{
  ℕ, zero, suc, ◌+◌, ◌*◌, ◌/◌, ◌^◌, ◌≤◌, ◌<◌, ◌≡◌, refl, max, List, [], ◌∷◌, arith, ltb,
  if◌then◌else◌, length, Option, none, some,
}
use dlt_matterbeam.Json.{Row}
use dlt_matterbeam.Server.{Segment}

unfoldable pub digits_in : ℕ → ℕ → ℕ
digits_in zero n = 1
digits_in (suc fuel) n = let more = suc (digits_in fuel (n / 10)) in if ltb n 10 then 1 else more

-- how many decimal digits a number has
unfoldable pub digit_count : ℕ → ℕ
unfolding digits_in
digit_count n = digits_in n n

-- the number that is written by `acc` and then `f"{n:0{width}d}"`
unfoldable pub padded : ℕ → ℕ → ℕ → ℕ
padded acc width n = acc * 10 ^ max width (digit_count n) + n

unfoldable pub pack_record_id : ℕ → ℕ → ℕ → ℕ → ℕ
unfolding padded
pack_record_id ms_since_epoch sequence_number writer_id noise =
    padded (padded (padded ms_since_epoch 10 sequence_number) 5 writer_id) 10 noise

-- the records with their ids, from the sequence number `seq` on
abbrev pub with_ids : ℕ → ℕ → ℕ → ℕ → List Row → List (ℕ × Row)
with_ids begin_ms writer_id noise seq [] = []
with_ids begin_ms writer_id noise seq (r ∷ rs) =
    (pack_record_id begin_ms seq writer_id noise, r)
    ∷ with_ids begin_ms writer_id noise (suc seq) rs

-- the id of the last of `count` records
abbrev pub id_of : ℕ → ℕ → ℕ → ℕ → ℕ
id_of begin_ms writer_id noise seq = pack_record_id begin_ms seq writer_id noise

-- `write_segment`, of a first record and the rest
unfoldable pub write_segment : ℕ → ℕ → ℕ → Row → List Row → Segment
unfolding pack_record_id
write_segment begin_ms writer_id noise r rs = record {
  first_id = id_of begin_ms writer_id noise 0;
  last_id = id_of begin_ms writer_id noise (length rs);
  facts = with_ids begin_ms writer_id noise 0 (r ∷ rs);
}
