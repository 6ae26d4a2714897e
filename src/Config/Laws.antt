-- ===== src/Config/Laws.antt =====
-- The load of a configuration (src/config.c) against the conditions of its check.
use net_chunk.Base.{
  ◌≤◌, ◌<◌, true, List, [], ◌∷◌, ◌≡◌, ◌↔◌, refl, arith, length, take, All, success,
}
use net_chunk.Base.Int.{pos, ◌≤ℤ◌}
use net_chunk.Config.Types.{Server, Config, min_chunk_size, max_chunk_size, max_replication_factor}
use net_chunk.Config.Load.{are_servers_valid, validate}

-- What a server needs.
pub record IsServerValid (s : Server) : Type 0 where
  pub hosted : 0 < length s.host
  pub ported : (0 < s.port) × (s.port ≤ 65535)
  pub named : 0 < length s.username
  pub based : 0 < length s.base_path

-- What a configuration needs.
pub record IsValid (c : Config) : Type 0 where
  pub sized : (min_chunk_size ≤ c.chunk_size) × (c.chunk_size ≤ max_chunk_size)
  pub replicated :
      (pos 1 ≤ℤ c.replication_factor) × (c.replication_factor ≤ℤ pos max_replication_factor)
  pub enough : (0 < c.server_count) × (c.replication_factor ≤ℤ pos c.server_count)
  pub servers : All IsServerValid (take c.server_count c.servers)
  pub concurrent : (pos 1 ≤ℤ c.max_concurrent_operations) × (c.max_concurrent_operations ≤ℤ pos 32)
  pub timed : (pos 5 ≤ℤ c.ftp_timeout) × (c.ftp_timeout ≤ℤ pos 300)
  pub checked : (pos 30 ≤ℤ c.health_check_interval) × (c.health_check_interval ≤ℤ pos 3600)

are_servers_valid_iff : (ss : List Server) → (are_servers_valid ss ≡ true) ↔ All IsServerValid ss
unfolding are_servers_valid
are_servers_valid_iff [] = (λ h. tt, λ h. refl)
are_servers_valid_iff (s ∷ ss) = (
  λ h. (
    record {
      hosted = ground arith;
      ported = ground arith;
      named = ground arith;
      based = ground arith;
    },
    (are_servers_valid_iff ss).0 (ground arith),
  ),
  λ h.
      ground
        (arith, h.0.hosted, h.0.ported, h.0.named, h.0.based, (are_servers_valid_iff ss).1 h.1),
)

-- The check returns SUCCESS exactly for the configurations that are valid.
pub validate_iff : (c : Config) → (validate c ≡ success) ↔ IsValid c
unfolding validate
validate_iff c = (
  λ h. record {
    sized = ground arith;
    replicated = ground arith;
    enough = ground arith;
    servers = (are_servers_valid_iff (take c.server_count c.servers)).0 (ground arith);
    concurrent = ground arith;
    timed = ground arith;
    checked = ground arith;
  },
  λ h. ground (
    arith,
    h.sized,
    h.replicated,
    h.enough,
    h.concurrent,
    h.timed,
    h.checked,
    (are_servers_valid_iff (take c.server_count c.servers)).1 h.servers,
  ),
)
