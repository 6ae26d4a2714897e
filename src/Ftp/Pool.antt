-- ===== src/Ftp/Pool.antt =====
-- The pool of connections of src/ftp_client.c: `netchunk_ftp_pool_init`, `_cleanup`, `_acquire` and
-- `_release`, each whole under the mutex of the pool, and its callers as a step relation.
use net_chunk.Base.{
  ℕ, suc, Bool, true, false, not, Option, none, some, List, [], ◌∷◌, ◌++◌, ◌≡◌, if◌then◌else◌,
  get_elem?, set, take, map, ErrorCode, success, invalid_argument, out_of_memory, unknown, failed,
  Result, ok, err,
}
use net_chunk.Base.Int.{ℤ, pos, negsuc}
use net_chunk.Config.Types.{Server, Config}
use net_chunk.Ftp.Connection.{Connection, disconnected, connected, zero_stats}

-- `netchunk_ftp_pool_t`; the connections are those below `connection_count`.
pub record Pool : Type 0 where
  pub connections : List Connection
  pub initialized : Bool
  pub max_concurrent : ℤ

-- `NETCHUNK_FTP_POOL_MAX_CONNECTIONS`
abbrev pub max_connections : ℕ
max_connections = 16

abbrev pub new_connection : Server → Connection
new_connection server = record {
  curl_handle = false;
  server = server;
  status = disconnected;
  last_used = 0;
  connected_at = 0;
  stats = zero_stats;
  in_use = false;
  error_message = [];
}

-- The loop over the servers, from the index `i`; `mutex_made i` is the answer for its mutex.
unfoldable pub init_connections : (ℕ → Bool) → ℕ → List Server → Result (List Connection)
init_connections mutex_made i [] = ok []
init_connections mutex_made i (s ∷ ss) =
    let rest = init_connections mutex_made (suc i) ss in
    if not (mutex_made i)
    then err unknown
    else (elim rest [ err e ↦ err e | ok cs ↦ ok (new_connection s ∷ cs) ])

-- `pool_made` says whether the mutex of the pool and its condition could be made.
unfoldable pub pool_init : Bool → (ℕ → Bool) → Config → Result Pool
pool_init pool_made mutex_made config =
    if not pool_made
    then err unknown
    else elim (init_connections mutex_made 0
        (take max_connections (take config.server_count config.servers))) [
          | err e ↦ err e
          | ok cs ↦ ok (record {
            connections = cs;
            initialized = true;
            max_concurrent = config.max_concurrent_operations;
          })
        ]

abbrev pub closed : Connection → Connection
closed c = record c { curl_handle = false; status = disconnected; in_use = false }

unfoldable pub pool_cleanup : Pool → Pool
pool_cleanup pool =
    if not pool.initialized
    then pool
    else record pool { connections = map closed pool.connections; initialized = false }

-- `setup_curl_options` sets options of libcurl and cannot fail.
abbrev pub setup_curl_options : Server → ErrorCode
setup_curl_options server = success

-- A connection that is free, for the caller: `made` is the answer of `curl_easy_init`, `now` the
-- time.
unfoldable pub take_connection : Connection → Bool → ℕ → ErrorCode × Connection
take_connection c made now =
    if c.curl_handle
    then (success, record c { in_use = true; last_used = now })
    else if not made
    then (out_of_memory, record c { in_use = false; last_used = now })
    else if failed (setup_curl_options c.server)
    then (
      setup_curl_options c.server,
      record c { in_use = false; last_used = now; curl_handle = false },
    )
    else (
      success,
      record c {
        in_use = true;
        last_used = now;
        curl_handle = true;
        status = connected;
        connected_at = now;
      },
    )

-- `none` where the caller waits for the connection.
unfoldable pub pool_acquire : Pool → ℤ → Bool → ℕ → Option (ErrorCode × Pool)
pool_acquire pool (negsuc n) made now = some (invalid_argument, pool)
pool_acquire pool (pos i) made now = elim (get_elem? pool.connections i) [
  | none ↦ some (invalid_argument, pool)
  | some c ↦
      if c.in_use
      then none
      else (let (code, c') = take_connection c made now in
          some (code, record pool { connections = set pool.connections i c' }))
]

abbrev pub released : Option Connection → ℕ → List Connection → ℕ → List Connection
released none i cs now = cs
released (some c) i cs now = set cs i (record c { in_use = false; last_used = now })

unfoldable pub pool_release : Pool → ℕ → ℕ → Pool
pool_release pool i now = record pool {
  connections = released (get_elem? pool.connections i) i pool.connections now;
}

-- The pool, and the connections that callers hold.
pub record System : Type 0 where
  pub pool : Pool
  pub held : List ℕ

-- A caller acquires a connection or is refused one, releases one that it holds, or uses one, which
-- changes anything of it but the mark that it is in use.
pub data Step : System → System → Type 0 where
  acquire :
      {pool pool' : Pool} {held : List ℕ} (i : ℕ) (made : Bool) (now : ℕ)
      → pool_acquire pool (pos i) made now ≡ some (success, pool')
      → Step (record { pool = pool; held = held }) (record { pool = pool'; held = i ∷ held })
  refuse :
      {pool pool' : Pool} {held : List ℕ} (n : ℤ) (made : Bool) (now : ℕ) (code : ErrorCode)
      → pool_acquire pool n made now ≡ some (code, pool')
      → failed code ≡ true
      → Step (record { pool = pool; held = held }) (record { pool = pool'; held = held })
  release :
      {pool : Pool} (before after : List ℕ) (i now : ℕ)
      → Step
          (record { pool = pool; held = before ++ (i ∷ after) })
          (record { pool = pool_release pool i now; held = before ++ after })
  operate :
      {pool : Pool} {held : List ℕ} (i : ℕ) (c c' : Connection)
      → get_elem? pool.connections i ≡ some c
      → c'.in_use ≡ c.in_use
      → Step
          (record { pool = pool; held = held })
          (record { pool = record pool { connections = set pool.connections i c' }; held = held })

-- Any number of steps.
pub data Reach (start : System) : System → Type 0 where
  stay : Reach start start
  step : {s t : System} → Reach start s → Step s t → Reach start t
