-- ===== src/Cli/Arguments.antt =====
-- `parse_arguments` of src/main.c. What `getopt_long` answers, the options in their order and the
-- arguments that stand behind them, and what `strdup` answers, which is not checked, are arguments.
use net_chunk.Base.{ℕ, Bool, true, false, Option, none, List, [], ◌∷◌, if◌then◌else◌}
use net_chunk.Libc.Text.{is_text}

-- `netchunk_command_t`
pub data Command : Type 0 where
  upload download list_files delete verify health version help unknown : Command

-- `cli_config_t`
pub record CliConfig : Type 0 where
  pub command : Command
  pub config_path : Option (List ℕ)
  pub local_path : Option (List ℕ)
  pub remote_name : Option (List ℕ)
  pub repair : Bool
  pub verbose : Bool
  pub quiet : Bool
  pub show_stats : Bool

abbrev pub empty_config : CliConfig
empty_config = record {
  command = unknown;
  config_path = none;
  local_path = none;
  remote_name = none;
  repair = false;
  verbose = false;
  quiet = false;
  show_stats = false;
}

-- An answer of `getopt_long`.
pub data Opt : Type 0 where
  opt_config : List ℕ → Opt
  opt_verbose opt_quiet opt_stats opt_repair opt_help opt_wrong : Opt

-- How the loop over the options is left.
pub data Options : Type 0 where
  go_on helped refused : CliConfig → Options

module _ (strdup : List ℕ → Option (List ℕ)) where
  unfoldable pub read_options : List Opt → CliConfig → Options
  read_options [] c = go_on c
  read_options (opt_config path ∷ os) c = read_options os (record c { config_path = strdup path })
  read_options (opt_verbose ∷ os) c = read_options os (record c { verbose = true })
  read_options (opt_quiet ∷ os) c = read_options os (record c { quiet = true })
  read_options (opt_stats ∷ os) c = read_options os (record c { show_stats = true })
  read_options (opt_repair ∷ os) c = read_options os (record c { repair = true })
  read_options (opt_help ∷ os) c = helped (record c { command = help })
  read_options (opt_wrong ∷ os) c = refused c

  abbrev pub with_upload : List (List ℕ) → CliConfig → Bool × CliConfig
  with_upload (local ∷ remote ∷ rest) c =
      (true, record c { command = upload; local_path = strdup local; remote_name = strdup remote })
  with_upload operands c = (false, record c { command = upload })

  abbrev pub with_download : List (List ℕ) → CliConfig → Bool × CliConfig
  with_download (remote ∷ local ∷ rest) c = (
    true,
    record c { command = download; local_path = strdup local; remote_name = strdup remote },
  )
  with_download operands c = (false, record c { command = download })

  abbrev pub with_name : Command → List (List ℕ) → CliConfig → Bool × CliConfig
  with_name command [] c = (false, record c { command = command })
  with_name command (name ∷ rest) c =
      (true, record c { command = command; remote_name = strdup name })

  -- The part behind the options: whether it returns 0, and what it leaves.
  unfoldable pub read_command : List (List ℕ) → CliConfig → Bool × CliConfig
  read_command [] c = (false, c)
  read_command (word ∷ operands) c =
      if is_text word "upload"
      then with_upload operands c
      else if is_text word "download"
      then with_download operands c
      else if is_text word "list"
      then (true, record c { command = list_files })
      else if is_text word "delete"
      then with_name delete operands c
      else if is_text word "verify"
      then with_name verify operands c
      else if is_text word "health"
      then (true, record c { command = health })
      else if is_text word "version"
      then (true, record c { command = version })
      else if is_text word "help"
      then (true, record c { command = help })
      else (false, c)

  unfoldable pub parse_arguments : List Opt → List (List ℕ) → Bool × CliConfig
  parse_arguments options operands = elim (read_options options empty_config) [
    | helped c ↦ (true, c)
    | refused c ↦ (false, c)
    | go_on c ↦ read_command operands c
  ]
