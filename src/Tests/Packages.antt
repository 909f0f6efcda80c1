-- ===== src/Tests/Packages.antt =====
-- The package of a directory with two files and no dependency spec.
use mathlib.Core.Quot
use dlt_matterbeam.Prelude.{
  ℕ, String, ◌≡◌, refl, ap, true, Option, none, some, List, [], ◌∷◌, ◌++◌, ◌==◌, arith, any,
  decimal, if◌then◌else◌,
}
use dlt_matterbeam.Json.Text.{codes}
use dlt_matterbeam.Exec.{ok}
use dlt_matterbeam.Deploy.{BuiltPackage}
use dlt_matterbeam.Deploy.Files.{
  Entries, end, file, RelativePath, keep_file, files, nested, iter_package_files,
}
use dlt_matterbeam.Deploy.Package.{
  File, Manifest, Distribution, is_dependency_spec, compute_content_hash, sorted_files,
  frozen_requirements_bytes, build_package,
}
use dlt_matterbeam.Deploy.Package.Archive.{Member}
use dlt_matterbeam.Deploy.Package.Contents.{entries, archive, build_package_lem}
use dlt_matterbeam.Sorting.Reordered.{exchange}
use dlt_matterbeam.Deploy.Package.Fileset.{fileset_hash, build_package-Fileset}

abbrev digest_b64 : List ℕ → String
digest_b64 [] = "h"
digest_b64 (b ∷ bs) = decimal b

abbrev lower : String → String
lower s = s

abbrev dump : Manifest → List ℕ
dump m = codes m.entry_script

abbrev gzip : List Member → List ℕ
gzip [] = []
gzip (m ∷ ms) = m.data_bytes ++ gzip ms

abbrev main_file : File
main_file = record { st_size = 2; st_mtime = 9; st_mode = 33188; content = 7 ∷ 8 ∷ 9 ∷ [] }

abbrev util_file : File
util_file = record { st_size = 1; st_mtime = 5; st_mode = 33188; content = 4 ∷ [] }

abbrev stat : String → Option File
stat path =
    if path == "main.py" then some main_file else if path == "util.py" then some util_file else none

abbrev find : RelativePath → File
find p = if p.name == "main.py" then main_file else util_file

abbrev first : List ℕ → ℕ
first [] = 0
first (c ∷ cs) = c

abbrev distributions : List Distribution
distributions = record { name = some "dlt"; version = some "1.0" } ∷ []

abbrev es : Entries
es = file "main.py" (file "util.py" end)

abbrev es' : Entries
es' = file "util.py" (file "main.py" end)

build_package_lem_example :
    let ps = iter_package_files es in
    let frozen = frozen_requirements_bytes lower codes distributions in
    (build_package digest_b64 codes lower dump gzip stat distributions es "main.py"
      ≡ ok (record {
        content = gzip (archive digest_b64 stat frozen find dump "main.py" ps);
        content_hash =
            compute_content_hash digest_b64 codes
              (sorted_files (entries digest_b64 stat frozen find ps));
      }))
    × (any is_dependency_spec (entries digest_b64 stat frozen find ps) ≡ true)
unfolding iter_package_files files nested keep_file
build_package_lem_example =
    build_package_lem digest_b64 codes lower dump gzip stat distributions find es "main.py"
      ((refl, omega arith), ((refl, omega arith), tt))

build_package-Fileset_example :
    let frozen = frozen_requirements_bytes lower codes distributions in
    let build = build_package digest_b64 codes lower dump gzip stat distributions in
    let hash = fileset_hash digest_b64 codes stat frozen find (Quot.mk (iter_package_files es)) in
    (b b' : BuiltPackage) × (build es "main.py" ≡ ok b)
    × (build es' "main.py" ≡ ok b')
    × (b.content_hash ≡ hash)
    × (b'.content_hash ≡ hash)
unfolding iter_package_files files nested keep_file
build_package-Fileset_example =
    build_package-Fileset digest_b64 codes lower dump gzip stat distributions find es es' "main.py"
      ((refl, omega arith), ((refl, omega arith), tt))
      (exchange _ _ λ same. let letters : 109 ≡ 117 = ap first same in omega (arith, letters))
