-- ===== src/Deploy/Package/Copied.antt =====
-- The copy of a file into the archive of src/dlt_matterbeam/deploy.py, block by block.
use mathlib.Core.List.{append-nil, append_assoc}
use dlt_matterbeam.Prelude.{
  ℕ, zero, suc, ◌+◌, ◌*◌, ◌/◌, ◌%◌, ◌≤◌, ◌≡◌, refl, ap, sym, ◌∙◌, false, List, [], ◌∷◌, ◌++◌, arith,
  length, take, drop, take_add, drop_add, length-take_le, length-drop, ltb, nat_beq, Bool-cases,
  inl, inr,
}
use dlt_matterbeam.Exec.{ok}
use dlt_matterbeam.Deploy.Package.Archive.{
  read, Copy, copy_chunk, block_size, copy_blocks, copy_file, TarInfo, Member, reader_of, add_file,
}

-- a copy that has moved so many bytes
abbrev moved : ℕ → Copy → Copy
moved n c = record { reader = (read n c.reader).1; written = c.written ++ take n c.reader.rest }

copy_chunk-moved :
    (n : ℕ) (c : Copy) → n ≤ length c.reader.rest → copy_chunk n c ≡ (ok tt, moved n c)
unfolding copy_chunk
copy_chunk-moved n c enough =
    let full : ltb (length (take n c.reader.rest)) n ≡ false =
      ground (arith, length-take_le n c.reader.rest enough) in
    rw (full) refl

moved-moved : (n m : ℕ) (c : Copy) → moved m (moved n c) ≡ moved (n + m) c
moved-moved n m c =
    let rest = c.reader.rest in
    let taken : (xs : List ℕ)
        → (xs ++ take n rest) ++ take m (drop n rest) ≡ xs ++ take (n + m) rest =
      λ xs.
        append_assoc xs (take n rest) (take m (drop n rest))
        ∙ ap (λ ys. xs ++ ys) (take_add n m rest) in
    λ i. record {
      reader = record { rest = drop_add n m rest i; hashed = taken c.reader.hashed i };
      written = taken c.written i;
    }

copy_blocks-moved :
    (k : ℕ) (c : Copy)
    → k * block_size ≤ length c.reader.rest
    → copy_blocks k c ≡ (ok tt, moved (k * block_size) c)
unfolding copy_blocks
copy_blocks-moved zero c enough = λ i. (
  ok tt,
  record {
    reader = record { rest = c.reader.rest; hashed = sym (append-nil c.reader.hashed) i };
    written = sym (append-nil c.written) i;
  },
)
copy_blocks-moved (suc k) c enough =
    let first : block_size ≤ length c.reader.rest = omega (arith, enough) in
    let others : k * block_size ≤ length (drop block_size c.reader.rest) =
      omega (arith, length-drop block_size c.reader.rest, enough) in
    let total : block_size + k * block_size ≡ suc k * block_size = omega arith in
    rw (copy_chunk-moved block_size c first) (
      copy_blocks-moved k (moved block_size c) others
      ∙ ap (λ d. (ok tt, d)) (moved-moved block_size (k * block_size) c)
      ∙ ap (λ n. (ok tt, moved n c)) total)

split_size : (size : ℕ) → size / block_size * block_size + size % block_size ≡ size
split_size size = omega arith

copy_file-moved :
    (size : ℕ) (c : Copy) → size ≤ length c.reader.rest → copy_file size c ≡ (ok tt, moved size c)
unfolding copy_file
copy_file-moved size c enough =
    let whole = size / block_size * block_size in
    let left = size % block_size in
    let split = split_size size in
    let some_left : left ≤ length (drop whole c.reader.rest) =
      omega (arith, length-drop whole c.reader.rest, enough, split) in
    rw (copy_blocks-moved (size / block_size) c (omega (arith, enough, split)))
      (elim (Bool-cases (nat_beq left 0)) [
        | inl none_left ↦
            let all : whole ≡ size = ground (arith, none_left, split) in
            rw (none_left) (ap (λ n. (ok tt, moved n c)) all)
        | inr more ↦ rw (more) (
            copy_chunk-moved left (moved whole c) some_left
            ∙ ap (λ d. (ok tt, d)) (moved-moved whole left c)
            ∙ ap (λ n. (ok tt, moved n c)) split)
      ])

-- what a file that is long enough leaves in the archive
abbrev pub member : TarInfo → List ℕ → Member
member info content = record { info = info; data_bytes = take info.size content }

pub add_file-member :
    (info : TarInfo) (content : List ℕ) (members : List Member)
    → info.size ≤ length content
    → add_file info content members ≡ (
      ok (record { rest = drop info.size content; hashed = take info.size content }),
      members ++ member info content ∷ [],
    )
unfolding add_file
add_file-member info content members enough =
    rw (copy_file-moved info.size (record { reader = reader_of content; written = [] }) enough) refl
