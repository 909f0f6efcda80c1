-- ===== src/Deploy/Package/Contents.antt =====
-- What `build_package` of src/dlt_matterbeam/deploy.py puts into the archive, and what the manifest
-- says of it, where every file can be opened and is as long as its stat says.
use mathlib.Core.List.{append-nil, append_assoc}
use dlt_matterbeam.Prelude.{
  ℕ, ◌≤◌, String, ◌≡◌, refl, ap, sym, ◌∙◌, true, Option, some, List, [], ◌∷◌, ◌++◌, map, arith,
  length, take, drop, take-length, any-append, any, All, if◌then◌else◌, Bool-cases, inl, inr,
}
use dlt_matterbeam.Exec.{ok}
use dlt_matterbeam.Deploy.Files.{Entries, RelativePath, iter_package_files}
use dlt_matterbeam.Deploy.Package.{
  File, Item, Manifest, as_posix, is_dependency_spec, info_of, plain_info, compute_content_hash,
  item, pack_found, pack_files, requirements, with_spec, sorted_files, manifest_of,
  frozen_requirements_bytes, Distribution, finish, pack, build_package,
}
use dlt_matterbeam.Deploy.Package.Archive.{HashingReader, Member, add_file}
use dlt_matterbeam.Deploy.Package.Copied.{member, add_file-member}

module _ (digest_b64 : List ℕ → String) (stat : String → Option File)
    (find : RelativePath → File) where
  -- a file that opens, and is as long as its stat says
  abbrev pub IsReadable : RelativePath → Type 0
  IsReadable p = (stat (as_posix p) ≡ some (find p)) × ((find p).st_size ≤ length (find p).content)

  -- its member of the archive: its first bytes, as many as its stat says
  abbrev pub member_of : RelativePath → Member
  member_of p = member (info_of (as_posix p) (find p)) (find p).content

  -- its entry in the manifest: the hash is that of the bytes in the archive
  abbrev pub item_of : RelativePath → Item
  item_of p = item digest_b64 (as_posix p) (find p).st_size (member_of p).data_bytes

  pack_found-read :
      (p : RelativePath) (members : List Member)
      → IsReadable p
      → pack_found digest_b64 stat (as_posix p) (stat (as_posix p)) members
        ≡ (ok (item_of p), members ++ member_of p ∷ [])
  unfolding pack_found
  pack_found-read p members (there, enough) =
      rw (there, add_file-member (info_of (as_posix p) (find p)) (find p).content members enough)
        refl

  pack_files-read :
      (ps : List RelativePath) (members : List Member)
      → All IsReadable ps
      → pack_files digest_b64 stat ps members ≡ (ok (map item_of ps), members ++ map member_of ps)
  unfolding pack_files
  pack_files-read [] members readable = ap (λ ms. (ok [], ms)) (sym (append-nil members))
  pack_files-read (p ∷ ps) members (here, others) =
      rw (pack_found-read p members here, pack_files-read ps (members ++ member_of p ∷ []) others)
        (ap (λ ms. (ok (map item_of (p ∷ ps)), ms))
          (append_assoc members (member_of p ∷ []) (map member_of ps)))

-- a member that is written from memory
abbrev pub plain_member : String → List ℕ → Member
plain_member name content = record { info = plain_info name content; data_bytes = content }

abbrev read_up : List ℕ → HashingReader
read_up content = record {
  rest = drop (length content) content;
  hashed = take (length content) content;
}

add_file-plain :
    (name : String) (content : List ℕ) (members : List Member)
    → add_file (plain_info name content) content members
      ≡ (ok (read_up content), members ++ plain_member name content ∷ [])
add_file-plain name content members =
    let info = plain_info name content in
    add_file-member info content members (omega arith)
    ∙ ap (λ d. (ok (read_up content), members ++ record { info = info; data_bytes = d } ∷ []))
        (take-length content)

module _ (digest_b64 : List ℕ → String) (frozen : List ℕ) where
  -- what is added for want of a dependency spec
  abbrev pub spec_items : List Item → List Item
  spec_items items =
      if any is_dependency_spec items then [] else requirements digest_b64 frozen ∷ []

  abbrev pub spec_members : List Item → List Member
  spec_members items =
      if any is_dependency_spec items then [] else plain_member "files/requirements.txt" frozen ∷ []

  with_spec-added :
      (items : List Item) (members : List Member)
      → with_spec digest_b64 frozen items members
        ≡ (ok (items ++ spec_items items), members ++ spec_members items)
  unfolding with_spec
  with_spec-added items members = elim (Bool-cases (any is_dependency_spec items)) [
    | inl has ↦ rw (has, append-nil items, append-nil members) refl
    | inr hasnt ↦ rw (hasnt, add_file-plain "files/requirements.txt" frozen members) refl
  ]

  any-spec : (items : List Item) → any is_dependency_spec (items ++ spec_items items) ≡ true
  any-spec items = elim (Bool-cases (any is_dependency_spec items)) [
    | inl has ↦ rw (has, append-nil) has
    | inr hasnt ↦
        rw (hasnt, any-append is_dependency_spec items (requirements digest_b64 frozen ∷ []), hasnt)
          refl
  ]

module _ (digest_b64 : List ℕ → String) (stat : String → Option File) (frozen : List ℕ)
    (find : RelativePath → File) where
  -- every entry of the manifest, in the order of the archive
  abbrev pub entries : List RelativePath → List Item
  entries ps =
      let found = map (item_of digest_b64 stat find) ps in
      found ++ spec_items digest_b64 frozen found

  -- the archive: the files, what was added, and the manifest
  abbrev pub archive : (Manifest → List ℕ) → String → List RelativePath → List Member
  archive dump entry_script ps =
      (map (member_of digest_b64 stat find) ps
        ++ spec_members digest_b64 frozen (map (item_of digest_b64 stat find) ps))
      ++ plain_member "manifest.yaml" (dump (manifest_of entry_script (sorted_files (entries ps))))
        ∷ []

module _ (digest_b64 : List ℕ → String) (encode : String → List ℕ) (lower : String → String)
    (dump : Manifest → List ℕ) (gzip : List Member → List ℕ) (stat : String → Option File)
    (distributions : List Distribution) (find : RelativePath → File) where
  -- Where every file of the walk opens and is as long as its stat says, the package is built. Its
  -- archive has the files of the walk in their order, each with its first bytes, as many as its stat
  -- says; the frozen requirements, if no file is a dependency spec; and the manifest. The manifest
  -- lists the path, the size and the hash of each of these before it, the hash of the very bytes in
  -- the archive, sorted by path; the content hash is computed from that list; and one entry is a
  -- dependency spec.
  pub build_package_lem :
      (es : Entries) (entry_script : String)
      → All (IsReadable digest_b64 stat find) (iter_package_files es)
      → let ps = iter_package_files es in
        let frozen = frozen_requirements_bytes lower encode distributions in
        (build_package digest_b64 encode lower dump gzip stat distributions es entry_script
          ≡ ok (record {
            content = gzip (archive digest_b64 stat frozen find dump entry_script ps);
            content_hash =
                compute_content_hash digest_b64 encode
                  (sorted_files (entries digest_b64 stat frozen find ps));
          }))
        × (any is_dependency_spec (entries digest_b64 stat frozen find ps) ≡ true)
  unfolding build_package pack finish
  build_package_lem es entry_script readable =
      let ps = iter_package_files es in
      let frozen = frozen_requirements_bytes lower encode distributions in
      let found = map (item_of digest_b64 stat find) ps in
      let yaml =
        dump (manifest_of entry_script (sorted_files (entries digest_b64 stat frozen find ps))) in
      let files = map (member_of digest_b64 stat find) ps in
      (
        rw
            (
              pack_files-read digest_b64 stat find ps [] readable,
              with_spec-added digest_b64 frozen found files,
              add_file-plain "manifest.yaml" yaml (files ++ spec_members digest_b64 frozen found),
            )
            refl,
        any-spec digest_b64 frozen found,
      )
