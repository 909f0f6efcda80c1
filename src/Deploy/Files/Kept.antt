-- ===== src/Deploy/Files/Kept.antt =====
-- The package files against the whole tree.
use dlt_matterbeam.Prelude.{
  String, ◌≡◌, refl, ap, sym, ◌∙◌, Bool, true, false, ◌&&◌, List, [], ◌∷◌, ◌++◌, map, arith, filter,
  filter-append, Bool-cases, inl, inr,
}
use dlt_matterbeam.Deploy.Files.{
  Entries, end, file, directory, RelativePath, keep_directory, keep_file, below, files, nested,
  iter_package_files,
}

-- every file of the tree, in the order of the walk
unfoldable pub all_files : Entries → List RelativePath
all_files end = []
all_files (file n es) = record { directories = []; name = n } ∷ all_files es
all_files (directory d sub es) = all_files es

unfoldable pub all_nested : Entries → List RelativePath
all_nested end = []
all_nested (file n es) = all_nested es
all_nested (directory d sub es) = map (below d) (all_files sub ++ all_nested sub) ++ all_nested es

abbrev pub all_kept : List String → Bool
all_kept [] = true
all_kept (d ∷ ds) = keep_directory d && all_kept ds

-- a file is wanted where its name is, and every directory above it
abbrev pub is_wanted : RelativePath → Bool
is_wanted p = all_kept p.directories && keep_file p.name

filter-below_kept :
    (d : String) (ps : List RelativePath)
    → keep_directory d ≡ true
    → filter is_wanted (map (below d) ps) ≡ map (below d) (filter is_wanted ps)
filter-below_kept d [] kept = refl
filter-below_kept d (p ∷ ps) kept = elim (Bool-cases (is_wanted p)) [
  | inl wanted ↦ rw (kept, wanted) (ap (λ qs. below d p ∷ qs) (filter-below_kept d ps kept))
  | inr unwanted ↦ rw (kept, unwanted) (filter-below_kept d ps kept)
]

filter-below_dropped :
    (d : String) (ps : List RelativePath)
    → keep_directory d ≡ false
    → filter is_wanted (map (below d) ps) ≡ []
filter-below_dropped d [] dropped = refl
filter-below_dropped d (p ∷ ps) dropped = rw (dropped) (filter-below_dropped d ps dropped)

files-filter : (es : Entries) → files es ≡ filter is_wanted (all_files es)
unfolding files all_files
files-filter end = refl
files-filter (file n es) = ground (arith, files-filter es)
files-filter (directory d sub es) = files-filter es

nested-filter : (es : Entries) → nested es ≡ filter is_wanted (all_nested es)
unfolding nested all_nested
nested-filter end = refl
nested-filter (file n es) = nested-filter es
nested-filter (directory d sub es) =
    let inner = all_files sub ++ all_nested sub in
    let split = filter-append is_wanted (map (below d) inner) (all_nested es) in
    let sub_filter : files sub ++ nested sub ≡ filter is_wanted inner =
      rw (files-filter sub, nested-filter sub)
        (sym (filter-append is_wanted (all_files sub) (all_nested sub))) in
    elim (Bool-cases (keep_directory d)) [
      | inl kept ↦ rw (kept) (
          ap (λ x. map (below d) x ++ nested es) sub_filter
          ∙ (ap (λ x. x ++ nested es) (sym (filter-below_kept d inner kept))
              ∙ (ap (λ x. filter is_wanted (map (below d) inner) ++ x) (nested-filter es)
                  ∙ sym split)))
      | inr dropped ↦ rw (dropped) (
          nested-filter es
          ∙ (ap (λ x. x ++ filter is_wanted (all_nested es))
                (sym (filter-below_dropped d inner dropped))
              ∙ sym split))
    ]

-- The files of the package are, in the order of the walk, those of the whole tree whose name is not
-- that of a secrets file, a compiled file or a library, and above which no directory is ignored.
pub iter_package_files-filter :
    (es : Entries) → iter_package_files es ≡ filter is_wanted (all_files es ++ all_nested es)
unfolding iter_package_files
iter_package_files-filter es =
    rw (files-filter es, nested-filter es)
      (sym (filter-append is_wanted (all_files es) (all_nested es)))
