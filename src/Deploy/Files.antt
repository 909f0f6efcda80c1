-- ===== src/Deploy/Files.antt =====
-- `_iter_package_files` of src/dlt_matterbeam/deploy.py: which files of the script's directory go
-- into the package. The directory tree is what `os.walk` sees of it.
pub mod Kept
use dlt_matterbeam.Prelude.{
  ℕ, String, Bool, true, false, not, ◌&&◌, ◌||◌, List, [], ◌∷◌, ◌++◌, map, ◌==◌, any, contains,
  nat_beq, if◌then◌else◌,
}
use dlt_matterbeam.Json.Text.{codes}

-- the entries of a directory
pub data Entries : Type 0 where
  end : Entries
  file : String → Entries → Entries
  directory : String → Entries → Entries → Entries

-- a file below the root
pub record RelativePath : Type 0 where
  pub directories : List String
  pub name : String

abbrev pub eq_codes : List ℕ → List ℕ → Bool
eq_codes [] [] = true
eq_codes (x ∷ xs) (y ∷ ys) = nat_beq x y && eq_codes xs ys
eq_codes _ _ = false

abbrev pub is_suffix : List ℕ → List ℕ → Bool
is_suffix suffix [] = eq_codes suffix []
is_suffix suffix (x ∷ xs) = eq_codes suffix (x ∷ xs) || is_suffix suffix xs

-- `s.endswith(suffix)`
abbrev pub ends_with : String → String → Bool
ends_with s suffix = is_suffix (codes suffix) (codes s)

-- `_IGNORED_DIR_NAMES`
abbrev pub ignored_dir_names : List String
ignored_dir_names =
    "__pycache__" ∷ ".venv" ∷ "venv" ∷ ".git" ∷ "dist" ∷ "build" ∷ ".mypy_cache" ∷ ".ruff_cache"
    ∷ ".pytest_cache" ∷ "htmlcov" ∷ []

-- `_IGNORED_FILE_SUFFIXES`
abbrev pub ignored_file_suffixes : List String
ignored_file_suffixes = ".pyc" ∷ ".pyo" ∷ ".so" ∷ []

unfoldable pub keep_directory : String → Bool
keep_directory d = not (contains d ignored_dir_names) && not (ends_with d ".egg-info")

unfoldable pub keep_file : String → Bool
keep_file n =
    if any (λ suffix. ends_with n suffix) ignored_file_suffixes
    then false
    else not (ends_with n "secrets.toml")

abbrev pub below : String → RelativePath → RelativePath
below d p = record p { directories = d ∷ p.directories }

-- the files of one directory
unfoldable pub files : Entries → List RelativePath
files end = []
files (file n es) =
    let rest = files es in
    if keep_file n then record { directories = []; name = n } ∷ rest else rest
files (directory d sub es) = files es

-- the files of its subdirectories, those of one before those of the next
unfoldable pub nested : Entries → List RelativePath
nested end = []
nested (file n es) = nested es
nested (directory d sub es) =
    let inner = nested sub in
    let rest = nested es in
    if keep_directory d then map (below d) (files sub ++ inner) ++ rest else rest

unfoldable pub iter_package_files : Entries → List RelativePath
iter_package_files es = files es ++ nested es
