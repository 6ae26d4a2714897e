-- ===== src/Config/LoadBounds.antt =====
-- The load of a configuration (src/config.c) against the bounds of its arrays.
use net_chunk.Base.{
  ℕ, zero, suc, ◌<◌, ◌||◌, Option, none, some, List, [], ◌∷◌, ◌≡◌, refl, sym, arith, ◌==◌, leb,
  if◌then◌else◌, failed, length, drop, replicate, All, Bool-cases, inl, inr, ErrorCode, success,
  Result, ok, err,
}
use mathlib.Core.Path.{subst}
use net_chunk.Libc.Text.{split_at_char}
use net_chunk.Chunker.Types.{max_path_len}
use net_chunk.Config.Types.{Config, max_servers}
use net_chunk.Config.Values.{trim_whitespace}
use net_chunk.Config.Path.{expand_path}
use net_chunk.Config.Load.{
  Parser, enter_section, set_key, read_line, read_lines, parse_ini_file, no_server, init_defaults,
  validate_parsed, load_lines, load_expanded, load_file,
}
use net_chunk.Config.ServerBounds.{IsServerBounded}
use net_chunk.Config.Bounds.{IsBounded, parse_section-IsBounded}

set_key-IsBounded :
    (p : Parser) (o : Option (List ℕ × List ℕ))
    → IsBounded p.config
    → IsBounded (set_key p o).1.config
set_key-IsBounded p none b = b
set_key-IsBounded p (some (key, value)) b =
    parse_section-IsBounded p.config p.section (trim_whitespace key) (trim_whitespace value) b

abbrev name_of : Option (List ℕ × List ℕ) → List ℕ
name_of none = []
name_of (some (header, behind)) = drop 1 header

-- The name between the brackets of a trimmed line that starts a section.
abbrev section_name : List ℕ → List ℕ
section_name [] = []
section_name (c ∷ line) = if c == b'[' then name_of (split_at_char b']' (c ∷ line)) else []

-- The section's name, if the line has one, fits in the array.
abbrev pub HasShortName : List ℕ → Type 0
HasShortName line = length (section_name (trim_whitespace line)) < 64

module _ (overrun : List ℕ → Parser → ErrorCode × Parser) where
  enter_section-IsBounded :
      (p : Parser) (o : Option (List ℕ × List ℕ))
      → length (name_of o) < 64
      → IsBounded p.config
      → IsBounded (enter_section overrun p o).1.config
  enter_section-IsBounded p none short b = b
  enter_section-IsBounded p (some (header, behind)) short b =
      elim (Bool-cases (leb 64 (length (drop 1 header)))) [
        | inl long ↦ absurd (ground (arith, long, short))
        | inr fits ↦ rw fits b
      ]

  read_line-IsBounded :
      (p : Parser) (line : List ℕ)
      → length (section_name line) < 64
      → IsBounded p.config
      → IsBounded (read_line overrun p line).1.config
  unfolding read_line
  read_line-IsBounded p [] short b = b
  read_line-IsBounded p (c ∷ line) short b =
      let pair = set_key-IsBounded p (split_at_char b'=' (c ∷ line)) b in
      elim (Bool-cases ((c == b'#') || (c == b';'))) [
        | inl e ↦ rw e b
        | inr e ↦ elim (Bool-cases (c == b'[')) [
          | inl d ↦
              rw (e, d)
                (enter_section-IsBounded p (split_at_char b']' (c ∷ line)) (rw d at short) b)
          | inr d ↦ rw (e, d) pair
        ]
      ]

  read_lines-IsBounded :
      (p : Parser) (lines : List (List ℕ))
      → All HasShortName lines
      → IsBounded p.config
      → IsBounded (read_lines overrun p lines).1.config
  unfolding read_lines
  read_lines-IsBounded p [] short b = b
  read_lines-IsBounded p (line ∷ lines) short b =
      let here = read_line-IsBounded p (trim_whitespace line) short.0 b in
      elim (Bool-cases (failed (read_line overrun p (trim_whitespace line)).0)) [
        | inl e ↦ rw e here
        | inr e ↦
            rw e (
              read_lines-IsBounded (read_line overrun p (trim_whitespace line)).1 lines short.1
                here)
      ]

pub init_defaults-IsBounded : IsBounded init_defaults
unfolding init_defaults IsBounded IsServerBounded replicate
init_defaults-IsBounded = record {
  array = refl;
  each = All-replicate max_servers;
  counted = omega arith;
  stored = omega arith;
  logged = omega arith;
  monitored = omega arith;
}
  where
    All-replicate : (n : ℕ) → All IsServerBounded (replicate n no_server)
    All-replicate zero = tt
    All-replicate (suc n) = (
      record {
        hosted = omega arith;
        named = omega arith;
        secret = omega arith;
        based = omega arith;
        numbered = omega arith;
      },
      All-replicate n,
    )

validate_parsed_config : (r : ErrorCode × Config) → (validate_parsed r).1 ≡ r.1
validate_parsed_config (success, c) = refl
validate_parsed_config (code, c) = refl

module _ (overrun : List ℕ → Parser → ErrorCode × Parser) where
  load_lines-IsBounded :
      (o : Option (List (List ℕ)))
      → ((lines : List (List ℕ)) → o ≡ some lines → All HasShortName lines)
      → IsBounded (load_lines overrun o).1
  unfolding parse_ini_file
  load_lines-IsBounded none short = init_defaults-IsBounded
  load_lines-IsBounded (some lines) short =
      subst IsBounded (sym (validate_parsed_config (parse_ini_file overrun init_defaults lines))) (
        read_lines-IsBounded overrun (record { config = init_defaults; section = [] }) lines
          (short lines refl) init_defaults-IsBounded)

  load_expanded-IsBounded :
      (files : List ℕ → Option (List (List ℕ))) (r : Result (List ℕ))
      → ((path : List ℕ) (lines : List (List ℕ)) → files path ≡ some lines → All HasShortName lines)
      → IsBounded (load_expanded overrun files r).1
  load_expanded-IsBounded files (err e) short = init_defaults-IsBounded
  load_expanded-IsBounded files (ok path) short = load_lines-IsBounded (files path) (short path)

  -- Whatever else the file holds, as long as no name of a section has 64 characters or more, and whether
  -- the load succeeds or not, the configuration that it leaves has all 32 servers, a count within them,
  -- and texts that fit in their arrays.
  pub load_file-IsBounded :
      (files : List ℕ → Option (List (List ℕ))) (env_home entry : Option (List ℕ)) (path : List ℕ)
      → ((path : List ℕ) (lines : List (List ℕ)) → files path ≡ some lines → All HasShortName lines)
      → IsBounded (load_file overrun files env_home entry path).1
  unfolding load_file
  load_file-IsBounded files env_home entry path short =
      load_expanded-IsBounded files (expand_path env_home entry path max_path_len) short
