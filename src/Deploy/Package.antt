-- ===== src/Deploy/Package.antt =====
-- `build_package` of src/dlt_matterbeam/deploy.py. The directory is the tree that `os.walk` sees of
-- it, and what `stat` and `open` say of each of its files; mtimes are in whole seconds. Hashes in
-- base64, UTF-8, YAML, gzip and `str.lower` are parameters. The built package holds the content of
-- the file that was written, in place of its path.
pub mod Archive
pub mod Copied
pub mod Contents
pub mod Fileset
use Prim.Native.String.{◌++◌ as str_append}
use dlt_matterbeam.Prelude.{
  ℕ, ◌%◌, String, Bool, true, false, ◌||◌, Option, none, some, List, [], ◌∷◌, ◌++◌, map, ◌==◌, any,
  contains, length, Dict, has_key, insert, if◌then◌else◌,
}
use dlt_matterbeam.Exec.{Error, Result, ok, err, file_not_found, ◌>>=◌ as and_then}
use dlt_matterbeam.Action.{Action, pure, raise, ◌>>=◌, ◌>>◌}
use dlt_matterbeam.Deploy.{BuiltPackage}
use dlt_matterbeam.Deploy.Files.{Entries, RelativePath, iter_package_files}
use dlt_matterbeam.Deploy.Package.Archive.{HashingReader, TarInfo, Member, add_file}
use dlt_matterbeam.Sorting.{sort}

-- a file of the directory
pub record File : Type 0 where
  pub st_size : ℕ
  pub st_mtime : ℕ
  pub st_mode : ℕ
  pub content : List ℕ

-- an entry of the manifest
pub record Item : Type 0 where
  pub relative_path : String
  pub size_in_bytes : ℕ
  pub sha3_256 : String

pub record Manifest : Type 0 where
  pub engine_version : ℕ
  pub entry_script : String
  pub files : List Item

pub record Distribution : Type 0 where
  pub name : Option String
  pub version : Option String

-- `as_posix`
abbrev pub joined : List String → String → String
joined [] name = name
joined (d ∷ ds) name = str_append d (str_append "/" (joined ds name))

abbrev pub as_posix : RelativePath → String
as_posix p = joined p.directories p.name

-- `_DEPENDENCY_SPEC_NAMES`
abbrev pub dependency_spec_names : List String
dependency_spec_names = "requirements.txt" ∷ "pyproject.toml" ∷ []

abbrev pub is_dependency_spec : Item → Bool
is_dependency_spec i = contains i.relative_path dependency_spec_names

abbrev pub info_of : String → File → TarInfo
info_of path f = record {
  name = str_append "files/" path;
  size = f.st_size;
  mtime = f.st_mtime;
  mode = f.st_mode % 4096;
}

-- `tarfile.TarInfo`, with its defaults
abbrev pub plain_info : String → List ℕ → TarInfo
plain_info name content = record { name = name; size = length content; mtime = 0; mode = 420 }

-- `"\n".join(lines)`
abbrev pub join_lines : List String → String
join_lines [] = ""
join_lines (l ∷ []) = l
join_lines (l ∷ m ∷ ls) = str_append l (str_append "\n" (join_lines (m ∷ ls)))

abbrev pub is_blank : Option String → Bool
is_blank none = true
is_blank (some s) = s == ""

-- `seen.setdefault`
abbrev pub setdefault : String → String → Dict String → Dict String
setdefault k v d = if has_key k d then d else insert k v d

abbrev pub text_or_empty : Option String → String
text_or_empty none = ""
text_or_empty (some s) = s

module _ (lower : String → String) where
  abbrev pub see : Distribution → Dict String → Dict String
  see dist seen =
      if is_blank dist.name || is_blank dist.version
      then seen
      else setdefault (lower (text_or_empty dist.name))
          (str_append (text_or_empty dist.name) (str_append "==" (text_or_empty dist.version))) seen

  unfoldable pub seen_in : List Distribution → Dict String → Dict String
  seen_in [] seen = seen
  seen_in (dist ∷ dists) seen = seen_in dists (see dist seen)

  -- `_frozen_requirements_bytes`
  unfoldable pub frozen_requirements_bytes : (String → List ℕ) → List Distribution → List ℕ
  frozen_requirements_bytes encode dists =
      encode (str_append (join_lines (sort (λ s. s) (map (λ kv. kv.1) (seen_in dists [])))) "\n")

module _ (digest_b64 : List ℕ → String) (encode : String → List ℕ) where
  abbrev pub hashed_bytes : List Item → List ℕ
  hashed_bytes [] = []
  hashed_bytes (i ∷ items) = encode i.relative_path ++ encode i.sha3_256 ++ hashed_bytes items

  -- `_compute_content_hash`
  unfoldable pub compute_content_hash : List Item → String
  compute_content_hash items = digest_b64 (hashed_bytes items)

abbrev pub item : (List ℕ → String) → String → ℕ → List ℕ → Item
item digest_b64 path size hashed = record {
  relative_path = path;
  size_in_bytes = size;
  sha3_256 = digest_b64 hashed;
}

module _ (digest_b64 : List ℕ → String) (stat : String → Option File) where
  unfoldable pub pack_found : String → Option File → Action (List Member) Item
  pack_found path none = raise (file_not_found path)
  pack_found path (some f) = do
    reader ← add_file (info_of path f) f.content
    pure (item digest_b64 path f.st_size reader.hashed)

  unfoldable pub pack_files : List RelativePath → Action (List Member) (List Item)
  pack_files [] = pure []
  pack_files (p ∷ ps) = do
    i ← pack_found (as_posix p) (stat (as_posix p))
    items ← pack_files ps
    pure (i ∷ items)

module _ (digest_b64 : List ℕ → String) (frozen : List ℕ) where
  abbrev pub requirements : Item
  requirements = item digest_b64 "requirements.txt" (length frozen) frozen

  -- a manifest without a dependency spec gets the frozen one
  unfoldable pub with_spec : List Item → Action (List Member) (List Item)
  with_spec items =
      if any is_dependency_spec items
      then pure items
      else (add_file (plain_info "files/requirements.txt" frozen) frozen
          >> pure (items ++ requirements ∷ []))

-- `manifest_files.sort(key=...)`
abbrev pub sorted_files : List Item → List Item
sorted_files = sort (λ i. i.relative_path)

abbrev pub manifest_of : String → List Item → Manifest
manifest_of entry_script items = record {
  engine_version = 1;
  entry_script = entry_script;
  files = items;
}

module _ (digest_b64 : List ℕ → String) (encode : String → List ℕ) (dump : Manifest → List ℕ)
    (stat : String → Option File) (frozen : List ℕ) where
  -- the manifest, and the content hash
  unfoldable pub finish : String → List Item → Action (List Member) String
  finish entry_script items =
      let manifest_yaml = dump (manifest_of entry_script items) in
      add_file (plain_info "manifest.yaml" manifest_yaml) manifest_yaml
      >> pure (compute_content_hash digest_b64 encode items)

  unfoldable pub pack : Entries → String → Action (List Member) String
  pack es entry_script = do
    found ← pack_files digest_b64 stat (iter_package_files es)
    manifest_files ← with_spec digest_b64 frozen found
    finish entry_script (sorted_files manifest_files)

module _ (digest_b64 : List ℕ → String) (encode : String → List ℕ) (lower : String → String)
    (dump : Manifest → List ℕ) (gzip : List Member → List ℕ) (stat : String → Option File)
    (distributions : List Distribution) where
  abbrev pub built : Result String × List Member → Result BuiltPackage
  built (ok hash, members) = ok (record { content = gzip members; content_hash = hash })
  built (err e, members) = err e

  unfoldable pub build_package : Entries → String → Result BuiltPackage
  build_package es entry_script =
      let frozen = frozen_requirements_bytes lower encode distributions in
      built (pack digest_b64 encode dump stat frozen es entry_script [])
