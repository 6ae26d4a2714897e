-- ===== src/Cli/Parsed.antt =====
-- What `parse_arguments` of src/main.c lets through.
use mathlib.Core.Path.{subst, sym}
use net_chunk.Base.{
  ℕ, Bool, true, false, Option, some, List, [], ◌∷◌, ◌≡◌, refl, is_some, if◌then◌else◌,
}
use net_chunk.Libc.Text.{is_text}
use net_chunk.Cli.Arguments.{
  Command, upload, download, list_files, delete, verify, health, version, help, unknown, CliConfig,
  empty_config, Opt, opt_config, opt_verbose, opt_quiet, opt_stats, opt_repair, opt_help, opt_wrong,
  Options, go_on, helped, refused, read_options, with_upload, with_download, with_name,
  read_command, parse_arguments,
}

-- The paths that a command needs are there.
abbrev pub IsReady : Command → CliConfig → Type 0
IsReady upload c = (is_some c.local_path ≡ true) × (is_some c.remote_name ≡ true)
IsReady download c = (is_some c.local_path ≡ true) × (is_some c.remote_name ≡ true)
IsReady list_files c = Unit
IsReady delete c = is_some c.remote_name ≡ true
IsReady verify c = is_some c.remote_name ≡ true
IsReady health c = Unit
IsReady version c = Unit
IsReady help c = Unit
IsReady unknown c = ⊥

-- What was parsed can be run.
abbrev pub IsParsed : Bool × CliConfig → Type 0
IsParsed (false, c) = Unit
IsParsed (true, c) = IsReady c.command c

if-IsParsed :
    (b : Bool) (x y : Bool × CliConfig) → IsParsed x → IsParsed y → IsParsed (if b then x else y)
if-IsParsed true x y h k = h
if-IsParsed false x y h k = k

-- The loop over the options ends with the help only by its option.
abbrev IsHelp : Options → Type 0
IsHelp (helped c) = c.command ≡ help
IsHelp options = Unit

module _ (strdup : List ℕ → Option (List ℕ)) (grants : (s : List ℕ) → strdup s ≡ some s) where
  with_upload-IsParsed :
      (operands : List (List ℕ)) (c : CliConfig) → IsParsed (with_upload strdup operands c)
  with_upload-IsParsed [] c = tt
  with_upload-IsParsed (local ∷ []) c = tt
  with_upload-IsParsed (local ∷ remote ∷ rest) c = (rw (grants local) refl, rw (grants remote) refl)

  with_download-IsParsed :
      (operands : List (List ℕ)) (c : CliConfig) → IsParsed (with_download strdup operands c)
  with_download-IsParsed [] c = tt
  with_download-IsParsed (remote ∷ []) c = tt
  with_download-IsParsed (remote ∷ local ∷ rest) c =
      (rw (grants local) refl, rw (grants remote) refl)

  with_delete-IsParsed :
      (operands : List (List ℕ)) (c : CliConfig) → IsParsed (with_name strdup delete operands c)
  with_delete-IsParsed [] c = tt
  with_delete-IsParsed (name ∷ rest) c = rw (grants name) refl

  with_verify-IsParsed :
      (operands : List (List ℕ)) (c : CliConfig) → IsParsed (with_name strdup verify operands c)
  with_verify-IsParsed [] c = tt
  with_verify-IsParsed (name ∷ rest) c = rw (grants name) refl

  read_command-IsParsed :
      (operands : List (List ℕ)) (c : CliConfig) → IsParsed (read_command strdup operands c)
  unfolding read_command
  read_command-IsParsed [] c = tt
  read_command-IsParsed (word ∷ operands) c =
      if-IsParsed (is_text word "upload") (with_upload strdup operands c) _
        (with_upload-IsParsed operands c)
        (if-IsParsed (is_text word "download") (with_download strdup operands c) _
          (with_download-IsParsed operands c)
          (if-IsParsed (is_text word "list") _ _ tt (
            if-IsParsed (is_text word "delete") (with_name strdup delete operands c) _
              (with_delete-IsParsed operands c)
              (if-IsParsed (is_text word "verify") (with_name strdup verify operands c) _
                (with_verify-IsParsed operands c)
                (if-IsParsed (is_text word "health") _ _ tt (
                  if-IsParsed (is_text word "version") _ _ tt
                    (if-IsParsed (is_text word "help") _ _ tt tt)))))))

  read_options-IsHelp : (os : List Opt) (c : CliConfig) → IsHelp (read_options strdup os c)
  unfolding read_options
  read_options-IsHelp [] c = tt
  read_options-IsHelp (opt_config path ∷ os) c =
      read_options-IsHelp os (record c { config_path = strdup path })
  read_options-IsHelp (opt_verbose ∷ os) c = read_options-IsHelp os (record c { verbose = true })
  read_options-IsHelp (opt_quiet ∷ os) c = read_options-IsHelp os (record c { quiet = true })
  read_options-IsHelp (opt_stats ∷ os) c = read_options-IsHelp os (record c { show_stats = true })
  read_options-IsHelp (opt_repair ∷ os) c = read_options-IsHelp os (record c { repair = true })
  read_options-IsHelp (opt_help ∷ os) c = refl
  read_options-IsHelp (opt_wrong ∷ os) c = tt

  ends-IsParsed :
      (operands : List (List ℕ)) (o : Options)
      → IsHelp o
      → IsParsed (elim o as (λ x. Bool × CliConfig) [
        | helped c ↦ (true, c)
        | refused c ↦ (false, c)
        | go_on c ↦ read_command strdup operands c
      ])
  ends-IsParsed operands (helped c) h = subst (λ k. IsReady k c) (sym h) tt
  ends-IsParsed operands (refused c) h = tt
  ends-IsParsed operands (go_on c) h = read_command-IsParsed operands c

  pub parse_arguments-IsParsed :
      (options : List Opt) (operands : List (List ℕ))
      → IsParsed (parse_arguments strdup options operands)
  unfolding parse_arguments
  parse_arguments-IsParsed options operands =
      ends-IsParsed operands (read_options strdup options empty_config)
        (read_options-IsHelp options empty_config)
