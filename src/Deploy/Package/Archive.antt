-- ===== src/Deploy/Package/Archive.antt =====
-- `_HashingReader` of src/dlt_matterbeam/deploy.py, and the part of Python's `tarfile` that reads
-- through it: `TarFile.addfile`, which writes a header and then copies the bytes in blocks.
use dlt_matterbeam.Prelude.{
  ℕ, zero, suc, ◌/◌, ◌%◌, String, List, [], ◌∷◌, ◌++◌, length, take, drop, ltb, nat_beq,
  if◌then◌else◌,
}
use dlt_matterbeam.Exec.{Result, ok, err, os_error}
use dlt_matterbeam.Action.{Action, pure, ◌>>◌}

pub record HashingReader : Type 0 where
  pub rest : List ℕ
  pub hashed : List ℕ

-- `_HashingReader.read`: the bytes, and the reader after them
abbrev pub read : ℕ → HashingReader → List ℕ × HashingReader
read size r =
    (take size r.rest, record { rest = drop size r.rest; hashed = r.hashed ++ take size r.rest })

-- a copy under way
pub record Copy : Type 0 where
  pub reader : HashingReader
  pub written : List ℕ

-- one read that has to be full
abbrev pub copied : ℕ → List ℕ × HashingReader → Copy → Result (Unit {0}) × Copy
copied size (chunk, r) c =
    if ltb (length chunk) size
    then (err os_error, record c { reader = r })
    else (ok tt, record { reader = r; written = c.written ++ chunk })

unfoldable pub copy_chunk : ℕ → Action Copy (Unit {0})
copy_chunk size c = copied size (read size c.reader) c

abbrev pub block_size : ℕ
block_size = 16384

unfoldable pub copy_blocks : ℕ → Action Copy (Unit {0})
copy_blocks zero = pure tt
copy_blocks (suc n) = copy_chunk block_size >> copy_blocks n

-- `copyfileobj`, of so many bytes
unfoldable pub copy_file : ℕ → Action Copy (Unit {0})
copy_file size =
    copy_blocks (size / block_size)
    >> (if nat_beq (size % block_size) 0 then pure tt else copy_chunk (size % block_size))

pub record TarInfo : Type 0 where
  pub name : String
  pub size : ℕ
  pub mtime : ℕ
  pub mode : ℕ

pub record Member : Type 0 where
  pub info : TarInfo
  pub data_bytes : List ℕ

-- `_HashingReader.__init__`
abbrev pub reader_of : List ℕ → HashingReader
reader_of content = record { rest = content; hashed = [] }

abbrev pub read_by : {A : Type 0} → Result (Unit {0}) → A → Result A
read_by (ok u) a = ok a
read_by (err e) a = err e

-- `tar.addfile`, with the reader that is left; what was copied stays in the archive
unfoldable pub add_file : TarInfo → List ℕ → Action (List Member) HashingReader
add_file info content members =
    let x = copy_file info.size (record { reader = reader_of content; written = [] }) in
    (read_by x.0 x.1.reader, members ++ record { info = info; data_bytes = x.1.written } ∷ [])
