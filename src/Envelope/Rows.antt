-- ===== src/Envelope/Rows.antt =====
-- `iter_stripped_rows` of src/dlt_matterbeam/envelope.py: a generator, so the rows before a bad
-- line are out when the error comes. dlt's `custom_pua_remove` and `json.loads` are parameters.
use dlt_matterbeam.Prelude.{
  ℕ, String, Bool, true, ◌&&◌, ◌||◌, nat_beq, Option, none, some, List, [], ◌∷◌, ◌==◌, leb,
  contains, if◌then◌else◌,
}
use dlt_matterbeam.Json.{Json, Items, Row, str, arr, obj, nil, cons, from_fields}
use dlt_matterbeam.Json.Text.{codes}
use dlt_matterbeam.Exec.{
  Error, Result, ok, err, ◌>>=◌, attribute_error, type_error, json_decode_error,
}
use dlt_matterbeam.Envelope.Strip.{strip_pua}

-- What a generator of rows does: it ends, raises, or yields a row and goes on.
pub data Rows : Type 0 where
  done : Rows
  raised : Error → Rows
  yield : Row → Rows → Rows

-- `list(rows)`
unfoldable pub collect : Rows → Result (List Row)
collect done = ok []
collect (raised e) = err e
collect (yield r rs) = do rest ← collect rs; ok (r ∷ rest)

-- `iter(rows)` of a list
unfoldable pub from_list : List Row → Rows
from_list [] = done
from_list (r ∷ rs) = yield r (from_list rs)

-- what `bytes.strip` takes off; in UTF-8 it is a byte of its own, the one of that code point
unfoldable pub is_space : ℕ → Bool
is_space c = (leb 9 c && leb c 13) || nat_beq c 32

abbrev pub all_space : List ℕ → Bool
all_space [] = true
all_space (c ∷ cs) = is_space c && all_space cs

-- `not raw.strip()`
abbrev pub is_blank : String → Bool
is_blank raw = all_space (codes raw)

-- `{k: v for k, v in rec.items() if k in columns}`
abbrev pub project : List String → Row → Row
project columns [] = []
project columns ((k, v) ∷ rec) =
    if contains k columns then (k, v) ∷ project columns rec else project columns rec

-- one `rec`, stripped; only a dict has `.items()`
abbrev pub yield_rec : List String → Json → Rows → Rows
yield_rec columns (obj fs) rest = yield (project columns (from_fields fs)) rest
yield_rec columns _ rest = raised attribute_error

module _ (custom_pua_remove : String → String) (loads : String → Option Json)
    (columns : List String) where
  abbrev iter_recs : Items → Rows → Rows
  iter_recs nil rest = rest
  iter_recs (cons rec recs) rest =
      yield_rec columns (strip_pua custom_pua_remove rec) (iter_recs recs rest)

  -- the loop over one line's value; a text is iterated over by characters, which are no dicts
  abbrev iter_line : Option Json → Rows → Rows
  iter_line none rest = raised json_decode_error
  iter_line (some (obj fs)) rest = yield_rec columns (strip_pua custom_pua_remove (obj fs)) rest
  iter_line (some (arr recs)) rest = iter_recs recs rest
  iter_line (some (str s)) rest = if s == "" then rest else raised attribute_error
  iter_line (some _) rest = raised type_error

  unfoldable pub iter_stripped_rows : List String → Rows
  unfolding strip_pua
  iter_stripped_rows [] = done
  iter_stripped_rows (raw ∷ lines) =
      let rest = iter_stripped_rows lines in
      if is_blank raw then rest else iter_line (loads raw) rest
