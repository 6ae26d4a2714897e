-- ===== src/Ftp/Transfers.antt =====
-- The operations on one connection in src/ftp_client.c: `netchunk_ftp_upload`, `_upload_file`,
-- `_download`, `_download_file`, `_delete`, `_file_exists`, `_get_file_size`, `_mkdir` and
-- `_list_directory`. What libcurl and the file system answer are arguments. Each holds the mutex of
-- the connection while its status is busy, so that no other operation sees this status; progress
-- structs are left out.
use net_chunk.Base.{
  ℕ, zero, suc, Bool, true, false, not, ◌&&◌, Option, none, some, List, [], ◌==◌, if◌then◌else◌,
  length, ErrorCode, invalid_argument, file_not_found, file_access, ftp, failed, Result, ok, err,
}
use net_chunk.Base.Int.{ℤ, pos_part}
use net_chunk.Ftp.Buffer.{Buffer, receive}
use net_chunk.Ftp.Connection.{
  FtpStatus, connected, failing, Connection, CurlCode, Answer, is_fine, Outcome,
  perform_curl_operation, update_connection_stats, build_url,
}

-- What libcurl answers at a URL, try by try.
abbrev pub Curl : Type 0
Curl = List ℕ → ℕ → Answer

abbrev pub is_failing : FtpStatus → Bool
is_failing failing = true
is_failing status = false

-- The guard of each operation, and the URL.
unfoldable pub open_url : Connection → List ℕ → Result (List ℕ)
open_url c remote_path =
    if not c.curl_handle
    then err ftp
    else if is_failing c.status
    then err ftp
    else build_url c.server remote_path 2048

abbrev pub latest : Option (List ℕ) → List ℕ → List ℕ
latest none before = before
latest (some text) before = text

-- The connection behind `perform_curl_operation`: its counts, its message and its status.
unfoldable pub settle : Connection → Outcome → ℕ → ℕ → Connection
settle c o bytes now = record c {
  stats = update_connection_stats c.stats (not (failed o.code)) bytes now;
  error_message = latest o.message c.error_message;
  status = if failed o.code then failing else connected;
}

-- `temp_opened` and `written` are the answers of `tmpfile` and `fwrite`.
unfoldable pub upload : Connection → List ℕ → List ℕ → Bool → ℕ → Curl → ℕ → ErrorCode × Connection
upload c remote_path bytes temp_opened written curl now =
    if length bytes == 0 then (invalid_argument, c) else elim (open_url c remote_path) [
      | err e ↦ (e, c)
      | ok url ↦
          if not temp_opened
          then (file_access, c)
          else if not (written == length bytes)
          then (file_access, c)
          else (let o = perform_curl_operation (curl url) in
              (o.code, settle c o (length bytes) now))
    ]

-- The size of the local file, if it can be opened.
unfoldable pub upload_file : Connection → List ℕ → Option ℕ → Curl → ℕ → ErrorCode × Connection
upload_file c remote_path local_size curl now = elim local_size [
  | none ↦ (file_not_found, c)
  | some size ↦ (elim (open_url c remote_path) [
    | err e ↦ (e, c)
    | ok url ↦ let o = perform_curl_operation (curl url) in (o.code, settle c o size now)
  ])
]

-- The pieces that libcurl hands over, try by try, each with the outcome of its `realloc`.
unfoldable pub receive_tries : (ℕ → List (List ℕ × Bool)) → ℕ → ℕ → Buffer → Buffer
receive_tries sent i zero buffer = buffer
receive_tries sent i (suc n) buffer = receive_tries sent (suc i) n (receive buffer (sent i)).1

-- The buffer is emptied once, before the first try.
unfoldable pub download :
    Connection
    → List ℕ
    → Buffer
    → (ℕ → List (List ℕ × Bool))
    → Curl
    → ℕ
    → ErrorCode × (Connection × Buffer)
download c remote_path buffer sent curl now = elim (open_url c remote_path) [
  | err e ↦ (e, (c, buffer))
  | ok url ↦
      let o = perform_curl_operation (curl url) in
      let filled = receive_tries sent 0 o.tries (record buffer { bytes = []; position = 0 }) in
      (o.code, (settle c o (length filled.bytes) now, filled))
]

-- The size of the local file when the transfer has ended.
unfoldable pub download_file : Connection → List ℕ → Bool → ℕ → Curl → ℕ → ErrorCode × Connection
download_file c remote_path opened file_size curl now =
    if not opened then (file_access, c) else elim (open_url c remote_path) [
      | err e ↦ (e, c)
      | ok url ↦ let o = perform_curl_operation (curl url) in (o.code, settle c o file_size now)
    ]

-- The DELE command.
unfoldable pub delete_file : Connection → List ℕ → Curl → ℕ → ErrorCode × Connection
delete_file c remote_path curl now = elim (open_url c remote_path) [
  | err e ↦ (e, c)
  | ok url ↦ let o = perform_curl_operation (curl url) in (o.code, settle c o 0 now)
]

-- The MKD command.
unfoldable pub make_directory : Connection → List ℕ → Curl → ℕ → ErrorCode × Connection
make_directory c remote_path curl now = elim (open_url c remote_path) [
  | err e ↦ (e, c)
  | ok url ↦ let o = perform_curl_operation (curl url) in (o.code, settle c o 0 now)
]

unfoldable pub list_directory :
    Connection
    → List ℕ
    → Buffer
    → (ℕ → List (List ℕ × Bool))
    → Curl
    → ℕ
    → ErrorCode × (Connection × Buffer)
list_directory c remote_path buffer sent curl now = elim (open_url c remote_path) [
  | err e ↦ (e, (c, buffer))
  | ok url ↦
      let o = perform_curl_operation (curl url) in
      let filled = receive_tries sent 0 o.tries (record buffer { bytes = []; position = 0 }) in
      (o.code, (settle c o (length filled.bytes) now, filled))
]

-- One try, and whether the file is there.
unfoldable pub file_exists : Connection → List ℕ → Curl → Result Bool × Connection
file_exists c remote_path curl = elim (open_url c remote_path) [
  | err e ↦ (err e, c)
  | ok url ↦ (ok (is_fine (curl url 0).code), record c { status = connected })
]

-- One try; `info` is the answer of `curl_easy_getinfo`. A negative size counts as 0.
unfoldable pub get_file_size : Connection → List ℕ → CurlCode × ℤ → Curl → Result ℕ × Connection
get_file_size c remote_path info curl = elim (open_url c remote_path) [
  | err e ↦ (err e, c)
  | ok url ↦ (
    if is_fine (curl url 0).code && is_fine info.0 then ok (pos_part info.1) else err ftp,
    record c { status = connected },
  )
]
