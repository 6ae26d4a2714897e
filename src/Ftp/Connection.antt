-- ===== src/Ftp/Connection.antt =====
-- One FTP connection in src/ftp_client.c: the structs of include/ftp_client.h,
-- `netchunk_ftp_build_url`, `perform_curl_operation`, `update_connection_stats`,
-- `netchunk_ftp_get_error_message` and `netchunk_ftp_reset_stats`. What libcurl answers is an
-- argument.
use net_chunk.Base.{
  ℕ, zero, suc, ◌+◌, ◌-◌, Bool, true, false, not, ◌&&◌, Option, none, some, List, [], ◌∷◌, ◌++◌,
  ltb, leb, ◌==◌, if◌then◌else◌, length, take, get_or, u32, u64, ErrorCode, success,
  invalid_argument, out_of_memory, file_not_found, file_access, network, ftp, timeout, Result, ok,
  err,
}
use net_chunk.Libc.Text.{codes}
use net_chunk.Libc.Decimal.{decimal}
use net_chunk.Config.Types.{Server}

-- `netchunk_ftp_status_t`
pub data FtpStatus : Type 0 where
  disconnected connecting connected busy failing : FtpStatus

-- `netchunk_ftp_stats_t`, without the `double` of the latency.
pub record FtpStats : Type 0 where
  pub bytes_uploaded : ℕ
  pub bytes_downloaded : ℕ
  pub successful_operations : ℕ
  pub failed_operations : ℕ
  pub retries_performed : ℕ
  pub last_activity : ℕ
  pub connection_errors : ℕ

abbrev pub zero_stats : FtpStats
zero_stats = record {
  bytes_uploaded = 0;
  bytes_downloaded = 0;
  successful_operations = 0;
  failed_operations = 0;
  retries_performed = 0;
  last_activity = 0;
  connection_errors = 0;
}

-- `netchunk_ftp_connection_t`; `curl_handle` says whether there is one. The mutex is held for the
-- whole of each function here.
pub record Connection : Type 0 where
  pub curl_handle : Bool
  pub server : Server
  pub status : FtpStatus
  pub last_used : ℕ
  pub connected_at : ℕ
  pub stats : FtpStats
  pub in_use : Bool
  pub error_message : List ℕ

-- The `CURLcode`s that the source tells apart.
pub data CurlCode : Type 0 where
  fine couldnt_connect timed_out recv_error send_error cant_get_host : CurlCode
  no_memory couldnt_read_file remote_file_not_found access_denied other : CurlCode

-- What one `curl_easy_perform` answers: its code, the response code that `curl_easy_getinfo` then
-- gives, and the text of `curl_easy_strerror`.
pub record Answer : Type 0 where
  pub code : CurlCode
  pub response : ℕ
  pub message : List ℕ

-- The codes after which the operation is tried again.
abbrev pub is_transient : CurlCode → Bool
is_transient couldnt_connect = true
is_transient timed_out = true
is_transient recv_error = true
is_transient send_error = true
is_transient cant_get_host = true
is_transient code = false

abbrev pub is_fine : CurlCode → Bool
is_fine fine = true
is_fine code = false

-- The last `switch`.
abbrev pub map_error : CurlCode → ErrorCode
map_error couldnt_connect = network
map_error cant_get_host = network
map_error timed_out = timeout
map_error no_memory = out_of_memory
map_error couldnt_read_file = file_not_found
map_error remote_file_not_found = file_not_found
map_error access_denied = file_access
map_error code = ftp

-- `NETCHUNK_FTP_MAX_RETRIES`
abbrev pub max_retries : ℕ
max_retries = 3

-- `snprintf` into the message of 256 characters.
abbrev pub stored_message : List ℕ → List ℕ
stored_message text = take 255 (codes "FTP error: " ++ text)

-- The outcome of the loop: the code, how often `curl_easy_perform` was called, and the message if
-- one was stored.
pub record Outcome : Type 0 where
  pub code : ErrorCode
  pub tries : ℕ
  pub message : Option (List ℕ)

-- The end of the loop at a try that succeeded.
abbrev answered : ℕ → Answer → Option (List ℕ) → Outcome
answered n a before =
    if leb 400 a.response
    then record {
      code = ftp;
      tries = n;
      message = some (stored_message (codes "HTTP " ++ decimal a.response));
    }
    else record { code = success; tries = n; message = before }

-- The loop, at the count `n` of retries so far and at most `fuel` turns more; the waits between
-- tries are left out.
unfoldable pub perform_from : (ℕ → Answer) → ℕ → ℕ → Option (List ℕ) → Outcome
perform_from answers zero n before = record { code = ftp; tries = n; message = before }
perform_from answers (suc fuel) n before =
    let a = answers n in
    let text = some (stored_message a.message) in
    let later = perform_from answers fuel (suc n) text in
    if is_fine a.code
    then answered (suc n) a before
    else if ltb (suc n) max_retries && is_transient a.code
    then later
    else record { code = map_error a.code; tries = suc n; message = text }

unfoldable pub perform_curl_operation : (ℕ → Answer) → Outcome
perform_curl_operation answers = perform_from answers max_retries 0 none

unfoldable pub update_connection_stats : FtpStats → Bool → ℕ → ℕ → FtpStats
update_connection_stats s succeeded bytes now =
    if succeeded
    then record s {
      successful_operations = u32 (s.successful_operations + 1);
      bytes_uploaded = u64 (s.bytes_uploaded + bytes);
      last_activity = now;
    }
    else record s {
      failed_operations = u32 (s.failed_operations + 1);
      connection_errors = u32 (s.connection_errors + 1);
      last_activity = now;
    }

-- A base path that is not empty ends with a slash.
abbrev normalized_base : List ℕ → List ℕ
normalized_base base =
    if ltb 0 (length base) && not (get_or base (length base - 1) 0 == b'/')
    then base ++ (b'/' ∷ [])
    else base

abbrev skip_slash : List ℕ → List ℕ
skip_slash [] = []
skip_slash (c ∷ path) = if c == b'/' then path else c ∷ path

-- `buffer_size` is the size of the array that the URL and its NUL must fit in.
unfoldable pub build_url : Server → List ℕ → ℕ → Result (List ℕ)
build_url server remote_path buffer_size =
    let url =
      (if server.use_ssl then codes "ftps" else codes "ftp")
      ++ (codes "://"
          ++ (server.username
              ++ (codes ":"
                  ++ (server.password
                      ++ (codes "@"
                          ++ (server.host
                              ++ (codes ":"
                                  ++ (decimal server.port
                                      ++ (normalized_base server.base_path
                                          ++ skip_slash remote_path))))))))) in
    if buffer_size == 0
    then err invalid_argument
    else if leb buffer_size (length url)
    then err invalid_argument
    else ok url

unfoldable pub get_error_message : Connection → List ℕ
get_error_message c =
    if length c.error_message == 0 then codes "No error message available" else c.error_message

unfoldable pub reset_stats : Connection → Connection
reset_stats c = record c { stats = zero_stats }
