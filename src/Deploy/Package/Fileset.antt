-- ===== src/Deploy/Package/Fileset.antt =====
-- A package as a set of files: what `build_package` of src/dlt_matterbeam/deploy.py makes of them
-- whichever way the walk lists them.
use mathlib.Core.Quot
use mathlib.Core.Quot.{Quot}
use text.Mathlib.TextEquality.{IsScalar-prop}
use dlt_matterbeam.Prelude.{
  ℕ, String, ◌≡◌, refl, ap, sym, ◌∙◌, Option, List, [], ◌∷◌, ◌++◌, map, All, if◌then◌else◌,
}
use dlt_matterbeam.Exec.{ok}
use dlt_matterbeam.Deploy.{BuiltPackage}
use dlt_matterbeam.Deploy.Files.{Entries, RelativePath, iter_package_files}
use dlt_matterbeam.Deploy.Package.{
  File, Item, Manifest, as_posix, is_dependency_spec, compute_content_hash, requirements,
  sorted_files, build_package, frozen_requirements_bytes, Distribution,
}
use dlt_matterbeam.Deploy.Package.Archive.{Member}
use dlt_matterbeam.Deploy.Package.Contents.{
  IsReadable, item_of, spec_items, entries, build_package_lem,
}
use dlt_matterbeam.Sorting.Reordered.{
  Reordered, sort-Reordered, any-Reordered, append-Reordered, All-Reordered, map-Reordered,
}

-- the files of a directory, their order forgotten
abbrev pub Fileset : Type 0
Fileset = Quot (Reordered as_posix)

module _ (digest_b64 : List ℕ → String) (stat : String → Option File) (frozen : List ℕ)
    (find : RelativePath → File) where
  abbrev found : List RelativePath → List Item
  found = map (item_of digest_b64 stat find)

  entries-Reordered :
      {ps qs : List RelativePath}
      → Reordered as_posix ps qs
      → sorted_files (entries digest_b64 stat frozen find ps)
        ≡ sorted_files (entries digest_b64 stat frozen find qs)
  entries-Reordered {ps} {qs} r =
      let items = map-Reordered (λ i. i.relative_path) (item_of digest_b64 stat find) r in
      let spec = any-Reordered (λ i. i.relative_path) is_dependency_spec items in
      sort-Reordered (λ i. i.relative_path)
        (append-Reordered (λ i. i.relative_path) (spec_items digest_b64 frozen (found ps)) items)
      ∙ ap (λ b. sorted_files (found qs ++ (if b then [] else requirements digest_b64 frozen ∷ [])))
          spec

module _ (digest_b64 : List ℕ → String) (encode : String → List ℕ) (stat : String → Option File)
    (frozen : List ℕ) (find : RelativePath → File) where
  abbrev pub hash_of : List RelativePath → String
  hash_of ps =
      compute_content_hash digest_b64 encode (sorted_files (entries digest_b64 stat frozen find ps))

  pub hash_of-Reordered :
      (ps qs : List RelativePath) → Reordered as_posix ps qs → hash_of ps ≡ hash_of qs
  hash_of-Reordered ps qs r =
      ap (compute_content_hash digest_b64 encode) (entries-Reordered digest_b64 stat frozen find r)

  -- the content hash of a set of files
  unfoldable pub fileset_hash : Fileset → String
  fileset_hash = Quot.lift (hlevel IsScalar-prop) hash_of hash_of-Reordered

module _ (digest_b64 : List ℕ → String) (encode : String → List ℕ) (lower : String → String)
    (dump : Manifest → List ℕ) (gzip : List Member → List ℕ) (stat : String → Option File)
    (distributions : List Distribution) (find : RelativePath → File) where
  -- Where every file of the walk opens and is as long as its stat says, the content hash of the
  -- package is that of the set of files, whichever way the walk lists them: a walk that lists the
  -- same files in another order builds a package with the same hash. Files that change places have
  -- different paths.
  pub build_package-Fileset :
      (es es' : Entries) (entry_script : String)
      → All (IsReadable digest_b64 stat find) (iter_package_files es)
      → Reordered as_posix (iter_package_files es) (iter_package_files es')
      → let frozen = frozen_requirements_bytes lower encode distributions in
        let build = build_package digest_b64 encode lower dump gzip stat distributions in
        let files : Fileset = Quot.mk (iter_package_files es) in
        let hash = fileset_hash digest_b64 encode stat frozen find files in
        (b b' : BuiltPackage) × (build es entry_script ≡ ok b)
        × (build es' entry_script ≡ ok b')
        × (b.content_hash ≡ hash)
        × (b'.content_hash ≡ hash)
  unfolding fileset_hash
  build_package-Fileset es es' entry_script readable r =
      let frozen = frozen_requirements_bytes lower encode distributions in
      let readable' = All-Reordered as_posix (IsReadable digest_b64 stat find) r readable in
      let built =
        build_package_lem digest_b64 encode lower dump gzip stat distributions find es entry_script
          readable in
      let built' =
        build_package_lem digest_b64 encode lower dump gzip stat distributions find es' entry_script
          readable' in
      (
        _,
        _,
        built.0,
        built'.0,
        refl,
        sym (
            hash_of-Reordered digest_b64 encode stat frozen find (iter_package_files es)
              (iter_package_files es') r),
      )
