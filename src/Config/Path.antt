-- ===== src/Config/Path.antt =====
-- The paths of src/config.c: `netchunk_config_expand_path` and `netchunk_config_find_file`. What
-- `getenv` and `getpwuid` answer, and `access`, are arguments.
use net_chunk.Base.{
  ℕ, Bool, not, Option, none, some, List, [], ◌∷◌, ◌++◌, leb, ◌==◌, if◌then◌else◌, length, Result,
  ok, err, invalid_argument, file_not_found, file_access,
}
use net_chunk.Libc.Text.{codes}
use net_chunk.Chunker.Types.{max_path_len}

-- The home directory: `HOME`, or that of the user's entry.
abbrev pub home_dir : Option (List ℕ) → Option (List ℕ) → Option (List ℕ)
home_dir none entry = entry
home_dir (some home) entry = some home

abbrev pub fit : List ℕ → ℕ → Result (List ℕ)
fit text max_len = if leb max_len (length text) then err invalid_argument else ok text

-- A path that starts with `~`, in which `rest` stands behind it.
abbrev pub expand_home : Option (List ℕ) → List ℕ → ℕ → Result (List ℕ)
expand_home none rest max_len = err file_access
expand_home (some home) [] max_len = fit home max_len
expand_home (some home) (c ∷ rest) max_len = fit (home ++ (c ∷ rest)) max_len

unfoldable pub expand_path : Option (List ℕ) → Option (List ℕ) → List ℕ → ℕ → Result (List ℕ)
expand_path env_home entry [] max_len =
    if max_len == 0 then err invalid_argument else fit [] max_len
expand_path env_home entry (c ∷ path) max_len =
    if max_len == 0
    then err invalid_argument
    else if not (c == b'~')
    then fit (c ∷ path) max_len
    else expand_home (home_dir env_home entry) path max_len

unfoldable pub search_paths : List (List ℕ)
search_paths =
    codes "netchunk.conf"
    ∷ codes "~/.netchunk/netchunk.conf"
    ∷ codes "~/.netchunk/config"
    ∷ codes "/etc/netchunk/netchunk.conf"
    ∷ codes "/usr/local/etc/netchunk/netchunk.conf"
    ∷ []

-- The outcome for a path that expands, and for one that does not.
abbrev pub take_readable : (List ℕ → Bool) → ℕ → Result (List ℕ) → Result (List ℕ) → Result (List ℕ)
take_readable readable path_len (err e) later = later
take_readable readable path_len (ok expanded) later =
    if readable expanded then fit expanded path_len else later

-- The loop over the paths.
unfoldable pub find_readable :
    Option (List ℕ) → Option (List ℕ) → (List ℕ → Bool) → ℕ → List (List ℕ) → Result (List ℕ)
find_readable env_home entry readable path_len [] = err file_not_found
find_readable env_home entry readable path_len (p ∷ ps) =
    take_readable readable path_len (expand_path env_home entry p max_path_len)
      (find_readable env_home entry readable path_len ps)

unfoldable pub find_file : Option (List ℕ) → Option (List ℕ) → (List ℕ → Bool) → ℕ → Result (List ℕ)
find_file env_home entry readable path_len =
    if path_len == 0
    then err invalid_argument
    else find_readable env_home entry readable path_len search_paths
