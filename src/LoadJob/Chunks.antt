-- ===== src/LoadJob/Chunks.antt =====
-- How a load job cuts its rows into chunks: the loop of `MatterbeamLoadJob.run`.
use Prim.Native.Nat.{max}
use mathlib.Core.List.{append_assoc, flatten}
use mathlib.Core.Path.{fun_ext}
use dlt_matterbeam.Prelude.{
  ℕ, suc, ◌+◌, ◌≤◌, ◌<◌, ◌≡◌, refl, sym, ap, ◌∙◌, true, false, ◌&&◌, List, [], ◌∷◌, ◌++◌, arith,
  length, length-append, is_empty, All, nat_beq, Bool-cases, inl, inr,
}
use dlt_matterbeam.Json.{Row}
use dlt_matterbeam.Action.{Action, pure, ◌>>◌, bind-pure}
use dlt_matterbeam.Envelope.Rows.{from_list}
use dlt_matterbeam.LoadJob.{Limits, is_full, send_rows}

module _ (row_bytes : Row → ℕ) (limits : Limits) where
  abbrev pub total_bytes : List Row → ℕ
  total_bytes [] = 0
  total_bytes (r ∷ rs) = row_bytes r + total_bytes rs

  total-append : (xs ys : List Row) → total_bytes (xs ++ ys) ≡ total_bytes xs + total_bytes ys
  total-append [] ys = omega arith
  total-append (x ∷ xs) ys = omega (arith, total-append xs ys)

  total-append_one :
      (xs : List Row) (x : Row) → total_bytes (xs ++ x ∷ []) ≡ total_bytes xs + row_bytes x
  total-append_one xs x = omega (arith, total-append xs (x ∷ []))

  abbrev pub drop_last : List Row → List Row
  drop_last [] = []
  drop_last (x ∷ []) = []
  drop_last (x ∷ y ∷ xs) = x ∷ drop_last (y ∷ xs)

  drop_last-append : (xs : List Row) (x : Row) → drop_last (xs ++ x ∷ []) ≡ xs
  drop_last-append [] x = refl
  drop_last-append (y ∷ []) x = refl
  drop_last-append (y ∷ z ∷ xs) x = ap (◌∷◌ y) (drop_last-append (z ∷ xs) x)

  is_empty-append : (xs : List Row) (x : Row) → is_empty (xs ++ x ∷ []) ≡ false
  is_empty-append [] x = refl
  is_empty-append (y ∷ xs) x = refl

  total-drop_last-le : (xs : List Row) → total_bytes (drop_last xs) ≤ total_bytes xs
  total-drop_last-le [] = omega arith
  total-drop_last-le (x ∷ []) = omega arith
  total-drop_last-le (x ∷ y ∷ xs) = omega (arith, total-drop_last-le (y ∷ xs))

  -- A chunk is within the limits up to its last row, which may take it past the bytes.
  pub record IsWithin (c : List Row) : Type 0 where
    pub records : length c ≤ max 1 limits.chunk_records
    pub bytes : total_bytes (drop_last c) < max 1 limits.chunk_bytes
    pub nonempty : is_empty c ≡ false

  -- every chunk but the last has reached a limit
  abbrev pub AllButLastFull : List (List Row) → Type 0
  AllButLastFull [] = Unit
  AllButLastFull (c ∷ []) = Unit
  AllButLastFull (c ∷ d ∷ cs) = (is_full limits c (total_bytes c) ≡ true) × AllButLastFull (d ∷ cs)

  -- rows that wait, none of whose beginnings was full
  record HasRoom (pending : List Row) : Type 0 where
    records : length pending < max 1 limits.chunk_records
    bytes : total_bytes pending < max 1 limits.chunk_bytes

  room_empty : HasRoom []
  room_empty = record { records = omega arith; bytes = omega arith }

  room_more :
      (pending : List Row) (row : Row)
      → is_full limits (pending ++ row ∷ []) (total_bytes pending + row_bytes row) ≡ false
      → HasRoom (pending ++ row ∷ [])
  room_more pending row h = record {
    records = ground arith;
    bytes = ground (arith, total-append pending (row ∷ []));
  }

  within : (pending : List Row) (row : Row) → HasRoom pending → IsWithin (pending ++ row ∷ [])
  within pending row r = record {
    records = omega (arith, length-append pending (row ∷ []), r.records);
    bytes = rw drop_last-append r.bytes;
    nonempty = is_empty-append pending row;
  }

  last-IsWithin : (p : Row) (ps : List Row) → HasRoom (p ∷ ps) → IsWithin (p ∷ ps)
  last-IsWithin p ps r = record {
    records = omega (arith, r.records);
    bytes = omega (arith, r.bytes, total-drop_last-le (p ∷ ps));
    nonempty = refl;
  }

  packed_cons :
      (c : List Row) (cs : List (List Row))
      → is_full limits c (total_bytes c) ≡ true
      → AllButLastFull cs
      → AllButLastFull (c ∷ cs)
  packed_cons c [] h a = tt
  packed_cons c (d ∷ cs) h a = (h, a)

  module _ {S : Type 0} (send : List Row → ℕ → Action S (Unit {0})) where
    abbrev pub send_all : List (List Row) → ℕ → Action S (Unit {0})
    send_all [] seq = pure tt
    send_all (c ∷ cs) seq = send c seq >> send_all cs (suc seq)

    record Cut (rs pending : List Row) (seq : ℕ) : Type 0 where
      chunks : List (List Row)
      sends :
          (s : S)
          → send_rows row_bytes limits send (from_list rs) pending (total_bytes pending) seq s
            ≡ send_all chunks seq s
      whole : flatten chunks ≡ pending ++ rs
      within_limits : All IsWithin chunks
      packed : AllButLastFull chunks

    cut :
        (rs pending : List Row) (seq : ℕ)
        → HasRoom pending
        → nat_beq seq 0 && (is_empty pending && is_empty rs) ≡ false
        → Cut rs pending seq
    unfolding send_rows from_list flatten
    cut [] [] seq r n = record {
      chunks = [];
      sends = λ s. ground arith;
      whole = refl;
      within_limits = tt;
      packed = tt;
    }
    cut [] (p ∷ ps) seq r n = record {
      chunks = (p ∷ ps) ∷ [];
      sends = λ s. sym (bind-pure (send (p ∷ ps) seq) s);
      whole = refl;
      within_limits = (last-IsWithin p ps r, tt);
      packed = tt;
    }
    cut (row ∷ rs) pending seq r n = elim (Bool-cases (is_full limits pending' bytes')) [
      | inl full ↦
          let rest = cut rs [] (suc seq) room_empty (ground arith) in
          record {
            chunks = pending' ∷ rest.chunks;
            sends = λ s.
                rw (send_rows, full) (ap (λ k. (send pending' seq >> k) s) (fun_ext rest.sends));
            whole = rw (rest.whole, append_assoc);
            within_limits = (within pending row r, rest.within_limits);
            packed = packed_cons pending' rest.chunks (rw total-append_one full) rest.packed;
          }
      | inr room ↦
          let rest =
            cut rs pending' seq (room_more pending row room)
              (ground (arith, is_empty-append pending row)) in
          record {
            chunks = rest.chunks;
            sends = λ s.
                rw (send_rows, room)
                  (ap (λ b. send_rows row_bytes limits send (from_list rs) pending' b seq s)
                      (sym (total-append_one pending row))
                    ∙ rest.sends s);
            whole = rest.whole ∙ append_assoc pending (row ∷ []) rs;
            within_limits = rest.within_limits;
            packed = rest.packed;
          }
    ]
      where
        pending' : List Row
        pending' = pending ++ row ∷ []

        bytes' : ℕ
        bytes' = total_bytes pending + row_bytes row

  module _ {S : Type 0} (send : List Row → ℕ → Action S (Unit {0})) (rs : List Row) (s : S) where
    -- The rows of a job that has any are sent in chunks numbered from 0, up to the first send that
    -- raises: put together the chunks are the rows in order, none of them is empty or past the
    -- limits before its last row, and each but the last has reached a limit.
    pub send_rows_chunks :
        is_empty rs ≡ false
        → (cs : List (List Row)) × (send_rows row_bytes limits send (from_list rs) [] 0 0 s
            ≡ send_all send cs 0 s)
          × (flatten cs ≡ rs)
          × All IsWithin cs
          × AllButLastFull cs
    send_rows_chunks some_rows =
        let c = cut send rs [] 0 room_empty some_rows in
        (c.chunks, c.sends s, c.whole, c.within_limits, c.packed)

    -- A job with no rows sends one chunk, with no rows and number 0.
    pub send_rows_none : send_rows row_bytes limits send (from_list []) [] 0 0 s ≡ send [] 0 s
    unfolding send_rows from_list
    send_rows_none = refl
