-- ===== src/Ftp/PoolTests.antt =====
-- Runs of a connection and of the pool, and the theorems about them at concrete inputs.
use net_chunk.Base.{
  ℕ, zero, suc, ◌≤◌, ◌≡◌, refl, List, [], ◌∷◌, true, Bool, none, some, ok, success, take, get_elem?,
}
use net_chunk.Base.Int.{pos}
use net_chunk.Libc.Decimal.{decimal}
use net_chunk.Config.Types.{Server, Config}
use net_chunk.Config.Load.{init_defaults}
use net_chunk.Ftp.Shelf.{server_named}
use net_chunk.Ftp.Buffer.{Buffer, receive, write_callback, buffer_append}
use net_chunk.Ftp.Connection.{
  Connection, connected, fine, recv_error, Answer, perform_from, perform_curl_operation, build_url,
}
use net_chunk.Ftp.ConnectionLaws.{IsOutcomeFrom, perform_curl_operation_lem}
use net_chunk.Ftp.Transfers.{download, open_url, receive_tries}
use net_chunk.Ftp.Pool.{
  Pool, new_connection, init_connections, pool_init, take_connection, pool_acquire, System, acquire,
  stay, step,
}
use net_chunk.Ftp.PoolLaws.{holders, mark, pool_exclusive}

-- The first try loses its connection, the second succeeds.
abbrev answers : ℕ → Answer
answers zero = record { code = recv_error; response = 0; message = [] }
answers (suc n) = record { code = fine; response = 226; message = [] }

perform_curl_operation_lem_example : IsOutcomeFrom answers 0 (perform_curl_operation answers)
perform_curl_operation_lem_example = perform_curl_operation_lem answers

retried : (perform_curl_operation answers).code ≡ success
unfolding perform_curl_operation perform_from
retried = refl

twice : (perform_curl_operation answers).tries ≡ 2
unfolding perform_curl_operation perform_from
twice = refl

abbrev server : Server
server = server_named (b'a' ∷ [])

abbrev good : Connection
good = record (new_connection server) { curl_handle = true; status = connected }

abbrev empty : Buffer
empty = record { bytes = []; capacity = 8; position = 0 }

-- The bytes of the try that failed stay in the buffer, before those of the next.
abbrev sent : ℕ → List (List ℕ × Bool)
sent zero = (1 ∷ 2 ∷ [], true) ∷ []
sent (suc n) = (1 ∷ 2 ∷ 3 ∷ [], true) ∷ []

doubled :
    (download good (b'x' ∷ []) empty sent (λ url. answers) 7).1.1.bytes ≡ 1 ∷ 2 ∷ 1 ∷ 2 ∷ 3 ∷ []
unfolding download open_url build_url perform_curl_operation perform_from receive_tries receive
    write_callback buffer_append decimal
doubled = refl

abbrev config : Config
config = record init_defaults { server_count = 1; servers = server ∷ [] }

abbrev start : Pool
start = record {
  connections = new_connection server ∷ [];
  initialized = true;
  max_concurrent = pos 4;
}

begins : pool_init true (λ i. true) config ≡ ok start
unfolding pool_init init_connections take init_defaults
begins = refl

abbrev used : Pool
used = record start {
  connections =
      record (new_connection server) {
        in_use = true;
        last_used = 5;
        curl_handle = true;
        status = connected;
        connected_at = 5;
      }
      ∷ [];
}

acquires : pool_acquire start (pos 0) true 5 ≡ some (success, used)
unfolding pool_acquire take_connection
acquires = refl

-- While the connection is held, another caller waits.
waits : pool_acquire used (pos 0) true 6 ≡ none
unfolding pool_acquire
waits = refl

abbrev held_once : System
held_once = record { pool = used; held = 0 ∷ [] }

pool_exclusive_example :
    (holders 0 held_once.held ≤ 1)
    × (holders 0 held_once.held ≡ mark (get_elem? held_once.pool.connections 0))
pool_exclusive_example =
    pool_exclusive true (λ i. true) config start held_once 0 begins
      (step stay (acquire {held = []} 0 true 5 acquires))
