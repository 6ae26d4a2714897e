-- ===== src/Cli/Run.antt =====
-- `main` of src/main.c, over the operations of include/netchunk.h. What it prints is left out.
use net_chunk.Base.{
  ℕ, Bool, true, false, not, Option, List, ◌==◌, if◌then◌else◌, ErrorCode, failed, Result, ok, err,
}
use net_chunk.Cli.Arguments.{
  Command, upload, download, list_files, delete, verify, health, version, help, unknown, CliConfig,
  Opt, parse_arguments,
}

-- The operations on a context, over all that they change. A path is `none` for NULL.
pub record Engine (W : Type 0) : Type 0 where
  pub init : Option (List ℕ) → W → ErrorCode × W
  pub set_progress_callback : Bool → W → W
  pub upload_file : Option (List ℕ) → Option (List ℕ) → W → ErrorCode × W
  pub download_file : Option (List ℕ) → Option (List ℕ) → W → ErrorCode × W
  pub list_all : W → ErrorCode × W
  pub delete_file : Option (List ℕ) → W → ErrorCode × W
  pub verify_file : Option (List ℕ) → Bool → W → ErrorCode × W
  pub health_check : W → Result (ℕ × ℕ) × W
  pub cleanup : W → W

abbrev pub exit_of : ErrorCode → ℕ
exit_of code = if failed code then 1 else 0

-- The numbers of healthy servers and of all servers.
abbrev pub exit_of_health : Result (ℕ × ℕ) → ℕ
exit_of_health (err code) = 1
exit_of_health (ok (healthy, total)) = if healthy == total then 0 else if healthy == 0 then 1 else 1

-- The commands that need no context.
abbrev pub is_immediate : Command → Bool
is_immediate help = true
is_immediate version = true
is_immediate command = false

module _ {W : Type 0} (e : Engine W) where
  abbrev with_exit : ErrorCode × W → ℕ × W
  with_exit (code, w) = (exit_of code, w)

  abbrev with_health_exit : Result (ℕ × ℕ) × W → ℕ × W
  with_health_exit (result, w) = (exit_of_health result, w)

  -- The `switch` over the command.
  unfoldable pub run_command : Command → CliConfig → W → ℕ × W
  run_command upload c w = with_exit (e.upload_file c.local_path c.remote_name w)
  run_command download c w = with_exit (e.download_file c.remote_name c.local_path w)
  run_command list_files c w = with_exit (e.list_all w)
  run_command delete c w = with_exit (e.delete_file c.remote_name w)
  run_command verify c w = with_exit (e.verify_file c.remote_name c.repair w)
  run_command health c w = with_health_exit (e.health_check w)
  run_command version c w = (1, w)
  run_command help c w = (1, w)
  run_command unknown c w = (1, w)

  abbrev cleaned : ℕ × W → ℕ × W
  cleaned (exit, w) = (exit, e.cleanup w)

  abbrev with_callback : CliConfig → W → W
  with_callback c w = if c.quiet then w else e.set_progress_callback c.verbose w

  -- The part from `netchunk_init` on.
  unfoldable pub start : CliConfig → W → ℕ × W
  start c w =
      let (code, w1) = e.init c.config_path w in
      if failed code then (1, w1) else cleaned (run_command c.command c (with_callback c w1))

  unfoldable pub main : (List ℕ → Option (List ℕ)) → List Opt → List (List ℕ) → W → ℕ × W
  main strdup options operands w =
      let (parsed, c) = parse_arguments strdup options operands in
      if not parsed then (1, w) else if is_immediate c.command then (0, w) else start c w
