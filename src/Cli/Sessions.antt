-- ===== src/Cli/Sessions.antt =====
-- Which operations `main` of src/main.c calls, and what it returns.
use net_chunk.Base.{
  ℕ, ◌≤◌, Bool, true, false, not, Option, List, [], ◌∷◌, ◌++◌, ◌≡◌, ◌≢◌, ◌↔◌, some, refl, arith,
  is_some, if◌then◌else◌, inl, inr, Bool-cases, ErrorCode, success, failed_cases, Result, ok, err,
}
use net_chunk.Cli.Arguments.{
  Command, upload, download, list_files, delete, verify, health, version, help, unknown, CliConfig,
  Opt, parse_arguments,
}
use net_chunk.Cli.Parsed.{IsReady, IsParsed, parse_arguments-IsParsed}
use net_chunk.Cli.Run.{Engine, exit_of, exit_of_health, run_command, start, is_immediate, main}

-- A call, and what it returned.
pub data Event : Type 0 where
  initialized : ErrorCode → Event
  uploaded downloaded : Option (List ℕ) → Option (List ℕ) → ErrorCode → Event
  listed : ErrorCode → Event
  deleted : Option (List ℕ) → ErrorCode → Event
  verified : Option (List ℕ) → ErrorCode → Event
  checked : Result (ℕ × ℕ) → Event
  cleaned_up : Event

abbrev pub logged :
    {W : Type 0} → List Event → (ErrorCode → Event) → ErrorCode × W → ErrorCode × (W × List Event)
logged log event (code, w) = (code, (w, log ++ (event code ∷ [])))

abbrev pub logged_health :
    {W : Type 0} → List Event → Result (ℕ × ℕ) × W → Result (ℕ × ℕ) × (W × List Event)
logged_health log (result, w) = (result, (w, log ++ (checked result ∷ [])))

-- An engine that writes its calls down.
abbrev pub traced : {W : Type 0} → Engine W → Engine (W × List Event)
traced e = record {
  init = λ path s. logged s.1 initialized (e.init path s.0);
  set_progress_callback = λ verbose s. (e.set_progress_callback verbose s.0, s.1);
  upload_file =
      λ local remote s. logged s.1 (uploaded local remote) (e.upload_file local remote s.0);
  download_file =
      λ remote local s. logged s.1 (downloaded remote local) (e.download_file remote local s.0);
  list_all = λ s. logged s.1 listed (e.list_all s.0);
  delete_file = λ name s. logged s.1 (deleted name) (e.delete_file name s.0);
  verify_file = λ name repair s. logged s.1 (verified name) (e.verify_file name repair s.0);
  health_check = λ s. logged_health s.1 (e.health_check s.0);
  cleanup = λ s. (e.cleanup s.0, s.1 ++ (cleaned_up ∷ []));
}

-- The health check succeeded, and as many servers are healthy as there are.
abbrev pub IsAllHealthy : Result (ℕ × ℕ) → Type 0
IsAllHealthy (err code) = ⊥
IsAllHealthy (ok (healthy, total)) = healthy ≡ total

-- The call of a command, with every path that it needs, and the exit code is 0 exactly if it went well.
abbrev pub IsCall : Event → ℕ → Type 0
IsCall (initialized code) exit = ⊥
IsCall (uploaded local remote code) exit =
    (is_some local ≡ true) × (is_some remote ≡ true) × ((exit ≡ 0) ↔ (code ≡ success))
IsCall (downloaded remote local code) exit =
    (is_some remote ≡ true) × (is_some local ≡ true) × ((exit ≡ 0) ↔ (code ≡ success))
IsCall (listed code) exit = (exit ≡ 0) ↔ (code ≡ success)
IsCall (deleted name code) exit = (is_some name ≡ true) × ((exit ≡ 0) ↔ (code ≡ success))
IsCall (verified name code) exit = (is_some name ≡ true) × ((exit ≡ 0) ↔ (code ≡ success))
IsCall (checked result) exit = (exit ≡ 0) ↔ IsAllHealthy result
IsCall cleaned_up exit = ⊥

-- A session: no call at all; a start that fails; or a start, one call and the cleanup.
abbrev pub IsSession : ℕ → List Event → Type 0
IsSession exit [] = exit ≤ 1
IsSession exit (initialized code ∷ []) = (code ≢ success) × (exit ≡ 1)
IsSession exit (initialized code ∷ call ∷ cleaned_up ∷ []) =
    (code ≡ success) × IsCall call exit × (exit ≤ 1)
IsSession exit events = ⊥

exit_of_lem : (code : ErrorCode) → ((exit_of code ≡ 0) ↔ (code ≡ success)) × (exit_of code ≤ 1)
exit_of_lem code = elim (failed_cases code) [
  | inl e ↦ rw e ((λ z. refl, λ z. refl), omega arith)
  | inr e ↦
      ((λ z. absurd (ground (arith, e, z)), λ z. absurd (ground (arith, e, z))), ground (arith, e))
]

exit_of_health_lem :
    (result : Result (ℕ × ℕ))
    → ((exit_of_health result ≡ 0) ↔ IsAllHealthy result) × (exit_of_health result ≤ 1)
exit_of_health_lem (err code) = ((λ z. absurd (omega (arith, z)), λ z. absurd z), omega arith)
exit_of_health_lem (ok (healthy, total)) = (ground arith, ground arith)

module _ {W : Type 0} (e : Engine W) where
  -- A call and the cleanup, behind a start that went well.
  abbrev IsRun : ℕ × (W × List Event) → Type 0
  IsRun (exit, (w, events)) =
      (call : Event) × (events ≡ initialized success ∷ call ∷ []) × IsCall call exit × (exit ≤ 1)

  run_command-IsRun :
      (command : Command) (c : CliConfig) (w : W)
      → IsReady command c
      → is_immediate command ≡ false
      → IsRun (run_command (traced e) command c (w, initialized success ∷ []))
  unfolding run_command
  run_command-IsRun upload c w ready later =
      let (code, w1) = e.upload_file c.local_path c.remote_name w in
      let exit = exit_of_lem code in
      (uploaded c.local_path c.remote_name code, refl, (ready.0, ready.1, exit.0), exit.1)
  run_command-IsRun download c w ready later =
      let (code, w1) = e.download_file c.remote_name c.local_path w in
      let exit = exit_of_lem code in
      (downloaded c.remote_name c.local_path code, refl, (ready.1, ready.0, exit.0), exit.1)
  run_command-IsRun list_files c w ready later =
      let (code, w1) = e.list_all w in
      let exit = exit_of_lem code in (listed code, refl, exit.0, exit.1)
  run_command-IsRun delete c w ready later =
      let (code, w1) = e.delete_file c.remote_name w in
      let exit = exit_of_lem code in (deleted c.remote_name code, refl, (ready, exit.0), exit.1)
  run_command-IsRun verify c w ready later =
      let (code, w1) = e.verify_file c.remote_name c.repair w in
      let exit = exit_of_lem code in (verified c.remote_name code, refl, (ready, exit.0), exit.1)
  run_command-IsRun health c w ready later =
      let (result, w1) = e.health_check w in
      let exit = exit_of_health_lem result in (checked result, refl, exit.0, exit.1)
  run_command-IsRun version c w ready later = cc
  run_command-IsRun help c w ready later = cc
  run_command-IsRun unknown c w ready later = elim ready [ ]

  if_with :
      (b : Bool) (w v : W) (events : List Event)
      → ◌≡◌ {A = W × List Event}
          (if b then (w, events) else (v, events))
          (if b then w else v, events)
  if_with true w v events = refl
  if_with false w v events = refl

  IsDone : ℕ × (W × List Event) → Type 0
  IsDone s = IsSession s.0 s.1.1

  cleaned-IsDone :
      (s : ℕ × (W × List Event))
      → IsRun s
      → IsDone (s.0, (e.cleanup s.1.0, s.1.1 ++ (cleaned_up ∷ [])))
  unfolding IsDone
  cleaned-IsDone (exit, (w, events)) (call, log, is_call, small) = rw log (refl, is_call, small)

  start-IsDone :
      (c : CliConfig) (w : W)
      → IsReady c.command c
      → is_immediate c.command ≡ false
      → IsDone (start (traced e) c (w, []))
  unfolding IsDone start
  start-IsDone c w ready later =
      let (code, w1) = e.init c.config_path w in
      elim (failed_cases code) [
        | inr f ↦ rw (IsDone, start, f) (λ z. absurd (ground (arith, f, z)), refl)
        | inl f ↦
            let v = e.set_progress_callback c.verbose w1 in
            let w2 = if c.quiet then w1 else v in
            let ran = run_command (traced e) c.command c (w2, initialized success ∷ []) in
            rw (start, f, if_with c.quiet w1 v (initialized success ∷ []))
              (cleaned-IsDone ran (run_command-IsRun c.command c w2 ready later))
      ]

  parsed-IsDone :
      (parsed : Bool) (c : CliConfig) (w : W)
      → IsParsed (parsed, c)
      → IsDone (
          if not parsed
          then (1, (w, []))
          else if is_immediate c.command
          then (0, (w, []))
          else start (traced e) c (w, []))
  unfolding IsDone
  parsed-IsDone false c w h = omega arith
  parsed-IsDone true c w h = elim (Bool-cases (is_immediate c.command)) [
    | inl f ↦ rw (IsDone, f) (omega arith)
    | inr f ↦ rw (f, IsDone) (start-IsDone c w h f)
  ]

  -- As long as `strdup` gets its memory, `main` does one of three things, whatever the options and
  -- the arguments are. It calls no operation and exits with 0 or 1; or it calls only the init, which
  -- fails, and exits with 1; or it calls the init, which succeeds, then one operation, with no path
  -- NULL that this operation needs, then the cleanup, and it exits with 0 if that operation went well
  -- and with 1 otherwise. The health check went well if it succeeded and all servers are healthy.
  pub main-IsSession :
      (strdup : List ℕ → Option (List ℕ))
      → ((s : List ℕ) → strdup s ≡ some s)
      → (options : List Opt) (operands : List (List ℕ)) (w : W)
      → let (exit, (w', events)) = main (traced e) strdup options operands (w, []) in
        IsSession exit events
  unfolding IsDone main
  main-IsSession strdup grants options operands w =
      let (parsed, c) = parse_arguments strdup options operands in
      parsed-IsDone parsed c w (parse_arguments-IsParsed strdup grants options operands)
