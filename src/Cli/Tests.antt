-- ===== src/Cli/Tests.antt =====
-- Runs of the command line over a store that keeps the names of its files.
use net_chunk.Base.{ℕ, Option, some, List, [], ◌∷◌, ◌≡◌, refl, success, ok}
use net_chunk.Libc.Text.{codes, same_text}
use net_chunk.Cli.Arguments.{opt_verbose, read_options, read_command, parse_arguments}
use net_chunk.Cli.Run.{Engine, run_command, start, main}
use net_chunk.Cli.Sessions.{
  initialized, uploaded, checked, cleaned_up, traced, IsSession, main-IsSession,
}

abbrev Names : Type 0
Names = List (Option (List ℕ))

abbrev store : Engine Names
store = record {
  init = λ path w. (success, w);
  set_progress_callback = λ verbose w. w;
  upload_file = λ local remote w. (success, remote ∷ w);
  download_file = λ remote local w. (success, w);
  list_all = λ w. (success, w);
  delete_file = λ name w. (success, []);
  verify_file = λ name repair w. (success, w);
  health_check = λ w. (ok (1, 2), w);
  cleanup = λ w. w;
}

abbrev upload_line : List (List ℕ)
upload_line = codes "upload" ∷ codes "a" ∷ codes "b" ∷ []

abbrev short_line : List (List ℕ)
short_line = codes "upload" ∷ codes "a" ∷ []

upload_line-main : main (traced store) some (opt_verbose ∷ []) upload_line ([], []) ≡ (
  0,
  (
    some (codes "b") ∷ [],
    initialized success ∷ uploaded (some (codes "a")) (some (codes "b")) success ∷ cleaned_up ∷ [],
  ),
)
unfolding main start run_command parse_arguments read_options read_command same_text
upload_line-main = refl

short_line-main : main store some [] short_line [] ≡ (1, [])
unfolding main start run_command parse_arguments read_options read_command same_text
short_line-main = refl

-- One of two servers is healthy: the health check succeeds, and the exit code is 1.
health_line-main :
    main (traced store) some [] (codes "health" ∷ []) ([], [])
    ≡ (1, ([], initialized success ∷ checked (ok (1, 2)) ∷ cleaned_up ∷ []))
unfolding main start run_command parse_arguments read_options read_command same_text
health_line-main = refl

main-IsSession_example :
    let (exit, (w', events)) = main (traced store) some (opt_verbose ∷ []) upload_line ([], []) in
    IsSession exit events
main-IsSession_example = main-IsSession store some (λ s. refl) (opt_verbose ∷ []) upload_line []
