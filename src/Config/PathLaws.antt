-- ===== src/Config/PathLaws.antt =====
-- The paths, the names and the texts of a configuration (src/config.c).
use net_chunk.Base.{
  ℕ, ◌+◌, ◌<◌, Bool, true, false, Option, none, some, List, [], ◌∷◌, ◌++◌, ◌≡◌, ◌≢◌, refl, ap, ◌∙◌,
  arith, ◌==◌, ltb, leb, if◌then◌else◌, length, length-append, append-nil, Bool-cases, inl, inr,
  success, invalid_argument, Result, ok, err,
}
use net_chunk.Libc.Text.{is_space, skip_spaces, same_text_nocase}
use net_chunk.Chunker.Types.{max_path_len}
use net_chunk.Config.Types.{LogLevel, error, warn, info, debug}
use net_chunk.Config.Names.{log_level_from_string, log_level_to_string}
use net_chunk.Config.Values.{keep_before, drop_spaces_end, trim_end, trim_whitespace}
use net_chunk.Config.Path.{
  fit, expand_home, home_dir, expand_path, take_readable, find_readable, find_file, search_paths,
}

fit_lem : (s out : List ℕ) (n : ℕ) → fit s n ≡ ok out → (out ≡ s) × (length out < n)
fit_lem s out n h = elim (Bool-cases (leb n (length s))) [
  | inl e ↦ absurd (ground arith)
  | inr e ↦ let same : out ≡ s = ground arith in (same, rw same (ground arith))
]

expand_home_lem :
    (o : Option (List ℕ)) (rest out : List ℕ) (n : ℕ)
    → expand_home o rest n ≡ ok out
    → length out < n
expand_home_lem none rest out n h = absurd cc
expand_home_lem (some home) [] out n h = (fit_lem home out n h).1
expand_home_lem (some home) (c ∷ rest) out n h = (fit_lem (home ++ (c ∷ rest)) out n h).1

fit-failed : (s : List ℕ) (n : ℕ) → fit s n ≢ err success
fit-failed s n h = ground arith

expand_home-failed : (o : Option (List ℕ)) (s : List ℕ) (n : ℕ) → expand_home o s n ≢ err success
expand_home-failed none s n h = absurd cc
expand_home-failed (some home) [] n h = fit-failed home n h
expand_home-failed (some home) (c ∷ s) n h = fit-failed (home ++ (c ∷ s)) n h

-- A path that is not expanded has an error code.
pub expand_path-failed :
    (env_home entry : Option (List ℕ)) (path : List ℕ) (n : ℕ)
    → expand_path env_home entry path n ≢ err success
unfolding expand_path
expand_path-failed env_home entry [] n h = ground (arith, fit-failed [] n)
expand_path-failed env_home entry (c ∷ path) n h =
    ground (arith, fit-failed (c ∷ path) n, expand_home-failed (home_dir env_home entry) path n)

-- An expanded path and its NUL fit in the caller's array.
pub expand_path_bounds :
    (env_home entry : Option (List ℕ)) (path out : List ℕ) (n : ℕ)
    → expand_path env_home entry path n ≡ ok out
    → length out < n
unfolding expand_path
expand_path_bounds env_home entry [] out n h = elim (Bool-cases (n == 0)) [
  | inl e ↦ absurd (ground arith)
  | inr e ↦ (fit_lem [] out n (ground arith)).1
]
expand_path_bounds env_home entry (c ∷ path) out n h = elim (Bool-cases (n == 0)) [
  | inl e ↦ absurd (ground arith)
  | inr e ↦ elim (Bool-cases (c == b'~')) [
    | inl tilde ↦ expand_home_lem (home_dir env_home entry) path out n (ground arith)
    | inr plain ↦ (fit_lem (c ∷ path) out n (ground arith)).1
  ]
]

expand_home-some :
    (home path : List ℕ) (n : ℕ)
    → expand_home (some home) path n
      ≡ (if ltb (length home + length path) n then ok (home ++ path) else err invalid_argument)
expand_home-some home [] n = rw (append-nil home) (ground arith)
expand_home-some home (c ∷ path) n = ground (arith, length-append home (c ∷ path))

-- In a path that starts with `~`, the home directory takes its place, that of the environment
-- before that of the user's entry; a result that does not fit is INVALID_ARGUMENT. The caller's
-- array is not empty, and there is a home directory.
pub expand_path_lem :
    (env_home entry : Option (List ℕ)) (path home : List ℕ) (n : ℕ)
    → 0 < n
    → home_dir env_home entry ≡ some home
    → expand_path env_home entry (b'~' ∷ path) n
      ≡ (if ltb (length home + length path) n then ok (home ++ path) else err invalid_argument)
unfolding expand_path
expand_path_lem env_home entry path home n pos e = rw e (rw nonzero (expand_home-some home path n))
  where
    nonzero : (n == 0) ≡ false
    nonzero = ground arith

take_readable_lem :
    (readable : List ℕ → Bool) (n : ℕ) (r later : Result (List ℕ)) (out : List ℕ)
    → (later ≡ ok out → (readable out ≡ true) × (length out < n))
    → take_readable readable n r later ≡ ok out
    → (readable out ≡ true) × (length out < n)
take_readable_lem readable n (err e) later out step h = step h
take_readable_lem readable n (ok p) later out step h = elim (Bool-cases (readable p)) [
  | inl found ↦ let fits = fit_lem p out n (ground arith) in (ap readable fits.0 ∙ found, fits.1)
  | inr unread ↦ step (ground arith)
]

find_readable_lem :
    (env_home entry : Option (List ℕ)) (readable : List ℕ → Bool) (n : ℕ) (paths : List (List ℕ))
    (out : List ℕ)
    → find_readable env_home entry readable n paths ≡ ok out
    → (readable out ≡ true) × (length out < n)
unfolding find_readable
find_readable_lem env_home entry readable n [] out h = absurd cc
find_readable_lem env_home entry readable n (p ∷ ps) out h =
    take_readable_lem readable n (expand_path env_home entry p max_path_len)
      (find_readable env_home entry readable n ps) out
      (find_readable_lem env_home entry readable n ps out) h

-- A configuration file that is found can be read, and its path fits in the caller's array.
pub find_file_lem :
    (env_home entry : Option (List ℕ)) (readable : List ℕ → Bool) (n : ℕ) (out : List ℕ)
    → find_file env_home entry readable n ≡ ok out
    → (readable out ≡ true) × (length out < n)
unfolding find_file
find_file_lem env_home entry readable n out h =
    find_readable_lem env_home entry readable n search_paths out (ground arith)

-- The name of a level is read back as the level.
pub log_level_from_string-log_level_to_string :
    (l : LogLevel) → log_level_from_string (some (log_level_to_string l)) ≡ l
unfolding log_level_from_string log_level_to_string same_text_nocase
log_level_from_string-log_level_to_string error = refl
log_level_from_string-log_level_to_string warn = refl
log_level_from_string-log_level_to_string info = refl
log_level_from_string-log_level_to_string debug = refl

-- Dropping the spaces at the end twice is dropping them once.
keep_before_idem :
    (c : ℕ) (s : List ℕ)
    → drop_spaces_end s ≡ s
    → drop_spaces_end (keep_before c s) ≡ keep_before c s
unfolding drop_spaces_end
keep_before_idem c [] h = ground arith
keep_before_idem c (d ∷ s) h = rw h refl

drop_spaces_end_idem : (s : List ℕ) → drop_spaces_end (drop_spaces_end s) ≡ drop_spaces_end s
unfolding drop_spaces_end
drop_spaces_end_idem [] = refl
drop_spaces_end_idem (c ∷ s) = keep_before_idem c (drop_spaces_end s) (drop_spaces_end_idem s)

-- The text starts with no white space.
abbrev StartsPlain : List ℕ → Type 0
StartsPlain [] = Unit
StartsPlain (c ∷ s) = is_space c ≡ false

skip_spaces-StartsPlain : (s : List ℕ) → StartsPlain (skip_spaces s)
unfolding skip_spaces
skip_spaces-StartsPlain [] = tt
skip_spaces-StartsPlain (c ∷ s) = elim (Bool-cases (is_space c)) [
  | inl e ↦ rw e (skip_spaces-StartsPlain s)
  | inr e ↦ rw e e
]

trim_end_idem : (s : List ℕ) → StartsPlain s → trim_whitespace (trim_end s) ≡ trim_end s
unfolding trim_whitespace skip_spaces
trim_end_idem [] h = refl
trim_end_idem (c ∷ s) h = rw h (rw (drop_spaces_end_idem s) refl)

-- Trimming twice is trimming once.
pub trim_whitespace_idem : (s : List ℕ) → trim_whitespace (trim_whitespace s) ≡ trim_whitespace s
unfolding trim_whitespace
trim_whitespace_idem s = trim_end_idem (skip_spaces s) (skip_spaces-StartsPlain s)
