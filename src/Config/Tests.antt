-- ===== src/Config/Tests.antt =====
-- A configuration file read, and the theorems about it at concrete inputs.
use net_chunk.Base.{
  ℕ, Option, none, some, List, [], ◌∷◌, ◌≡◌, ◌↔◌, refl, if◌then◌else◌, drop, replicate, ok, success,
  ErrorCode, All, Bool-cases, inl, inr, arith, sym,
}
use mathlib.Core.Path.{subst}
use net_chunk.Base.Int.{pos}
use net_chunk.Libc.Text.{codes, same_text, split_at_char, skip_spaces}
use net_chunk.Config.Types.{Config}
use net_chunk.Config.Values.{trim_whitespace, drop_spaces_end}
use net_chunk.Config.Path.{expand_path, find_readable, find_file, search_paths}
use net_chunk.Config.Load.{Parser, init_defaults, no_server, validate, load_file}
use net_chunk.Config.Bounds.{IsBounded}
use net_chunk.Config.LoadBounds.{HasShortName, load_file-IsBounded}
use net_chunk.Config.Laws.{IsValid, validate_iff}

-- A name that is too long leaves the state as it was.
abbrev ignored : List ℕ → Parser → ErrorCode × Parser
ignored name p = (success, p)

abbrev lines : List (List ℕ)
lines =
    codes "# comment"
    ∷ codes "[general]"
    ∷ codes " chunk_size = 8MB "
    ∷ codes "replication_factor=1"
    ∷ codes ""
    ∷ codes "[server_1]"
    ∷ codes "host = ftp.example.com"
    ∷ codes "port = 21"
    ∷ codes "username = u"
    ∷ codes "base_path = /chunks"
    ∷ []

abbrev files : List ℕ → Option (List (List ℕ))
files path = if same_text path (codes "/h/c") then some lines else none

abbrev loaded : Config
loaded = record init_defaults {
  chunk_size = 8388608;
  replication_factor = pos 1;
  server_count = 1;
  servers =
      record no_server {
        host = codes "ftp.example.com";
        port = 21;
        username = codes "u";
        base_path = codes "/chunks";
      }
      ∷ replicate 31 no_server;
}

lines_short : All HasShortName lines
unfolding trim_whitespace drop_spaces_end skip_spaces split_at_char drop
lines_short = (
  omega arith,
  (
    omega arith,
    (
      omega arith,
      (
        omega arith,
        (
          omega arith,
          (omega arith, (omega arith, (omega arith, (omega arith, (omega arith, tt))))),
        ),
      ),
    ),
  ),
)

files_short :
    (path : List ℕ) (found : List (List ℕ)) → files path ≡ some found → All HasShortName found
files_short path found e = elim (Bool-cases (same_text path (codes "/h/c"))) [
  | inl f ↦
      let same : found ≡ lines = ground (arith, f, e) in
      subst (λ ls. All HasShortName ls) (sym same) lines_short
  | inr f ↦ absurd (ground (arith, f, e))
]

load_file-IsBounded_example :
    IsBounded (load_file ignored files (some (codes "/h")) none (codes "~/c")).1
load_file-IsBounded_example =
    load_file-IsBounded ignored files (some (codes "/h")) none (codes "~/c") files_short

validate_iff_example : (validate loaded ≡ success) ↔ IsValid loaded
validate_iff_example = validate_iff loaded

expands : expand_path (some (codes "/h")) none (codes "~/c") 8 ≡ ok (codes "/h/c")
unfolding expand_path
expands = refl

found :
    find_file (some (codes "/h")) none (λ path. same_text path (codes "/h/.netchunk/config")) 64
    ≡ ok (codes "/h/.netchunk/config")
unfolding find_file find_readable search_paths expand_path same_text
found = refl
