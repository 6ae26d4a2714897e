-- ===== src/Config/Bounds.antt =====
-- The bounds of a configuration's arrays, and the keys of a configuration's sections.
use net_chunk.Base.{
  ℕ, ◌≤◌, ◌<◌, List, ◌≡◌, ◌∙◌, arith, leb, length, take, All, Bool-cases, inl, inr, ErrorCode,
}
use net_chunk.Base.Int.{ℤ, pos, negsuc}
use net_chunk.Libc.Text.{is_text}
use net_chunk.Chunker.Types.{max_path_len}
use net_chunk.Config.Types.{Server, Config, max_servers}
use net_chunk.Config.Parse.{
  copy_text, parse_general, parse_server_at, parse_repair, parse_monitoring, parse_security,
  parse_section,
}
use net_chunk.Config.ServerBounds.{
  IsServerBounded, if_lem, copy_text-fits, update_at-IsServerBounded, length-update_at,
}

pub record FitsArrays (servers : List Server) (count : ℕ) (local log monitor : List ℕ)
    : Type 0 where
  pub array : length servers ≡ max_servers
  pub each : All IsServerBounded servers
  pub counted : count ≤ max_servers
  pub stored : length local < max_path_len
  pub logged : length log < max_path_len
  pub monitored : length monitor < max_path_len

-- The invariant of a configuration: every text fits in its array, and the count of the servers is
-- within the array of the servers.
unfoldable pub IsBounded : Config → Type 0
IsBounded c =
    FitsArrays c.servers c.server_count c.local_storage_path c.log_file c.monitoring_data_path

bounded :
    (c : Config)
    → FitsArrays c.servers c.server_count c.local_storage_path c.log_file c.monitoring_data_path
    → IsBounded c
unfolding IsBounded
bounded c b = b

module _ (c : Config)
    (b : FitsArrays c.servers c.server_count c.local_storage_path c.log_file c.monitoring_data_path)
    (value : List ℕ) where
  path_fits : length (copy_text max_path_len value) < max_path_len
  path_fits = copy_text-fits max_path_len value (omega arith)

  parse_general-IsBounded : (key : List ℕ) → IsBounded (parse_general c key value)
  unfolding parse_general
  parse_general-IsBounded key = if_lem IsBounded (is_text key "chunk_size") (bounded _ b) (
      if_lem IsBounded (is_text key "replication_factor") (bounded _ b) (
        if_lem IsBounded (is_text key "max_concurrent_operations") (bounded _ b) (
          if_lem IsBounded (is_text key "ftp_timeout") (bounded _ b) (
            if_lem IsBounded (is_text key "local_storage_path")
              (bounded _ (record {
                array = b.array;
                each = b.each;
                counted = b.counted;
                stored = path_fits;
                logged = b.logged;
                monitored = b.monitored;
              }))
              (if_lem IsBounded (is_text key "log_level") (bounded _ b) (
                if_lem IsBounded (is_text key "log_file")
                  (bounded _ (record {
                    array = b.array;
                    each = b.each;
                    counted = b.counted;
                    stored = b.stored;
                    logged = path_fits;
                    monitored = b.monitored;
                  }))
                  (if_lem IsBounded (is_text key "health_monitoring_enabled") (bounded _ b) (
                    if_lem IsBounded (is_text key "health_check_interval") (bounded _ b)
                      (bounded _ b)))))))))

  parse_repair-IsBounded : (key : List ℕ) → IsBounded (parse_repair c key value)
  unfolding parse_repair
  parse_repair-IsBounded key = if_lem IsBounded (is_text key "auto_repair_enabled") (bounded _ b) (
      if_lem IsBounded (is_text key "max_repair_attempts") (bounded _ b) (
        if_lem IsBounded (is_text key "repair_delay") (bounded _ b)
          (if_lem IsBounded (is_text key "rebalancing_enabled") (bounded _ b) (bounded _ b))))

  parse_monitoring-IsBounded : (key : List ℕ) → IsBounded (parse_monitoring c key value)
  unfolding parse_monitoring
  parse_monitoring-IsBounded key =
      if_lem IsBounded (is_text key "storage_alert_threshold") (bounded _ b) (
        if_lem IsBounded (is_text key "latency_alert_threshold") (bounded _ b) (
          if_lem IsBounded (is_text key "performance_logging") (bounded _ b) (
            if_lem IsBounded (is_text key "monitoring_data_path")
              (bounded _ (record {
                array = b.array;
                each = b.each;
                counted = b.counted;
                stored = b.stored;
                logged = b.logged;
                monitored = path_fits;
              }))
              (bounded _ b))))

  parse_security-IsBounded : (key : List ℕ) → IsBounded (parse_security c key value)
  unfolding parse_security
  parse_security-IsBounded key =
      if_lem IsBounded (is_text key "verify_ssl_certificates") (bounded _ b) (
        if_lem IsBounded (is_text key "always_verify_integrity") (bounded _ b)
          (if_lem IsBounded (is_text key "encrypt_chunks") (bounded _ b) (bounded _ b)))

parse_server_at-IsBounded :
    (c : Config) (i : ℤ) (key value : List ℕ)
    → IsBounded c
    → IsBounded (parse_server_at c i key value).1
unfolding parse_server_at IsBounded
parse_server_at-IsBounded c (negsuc n) key value b = b
parse_server_at-IsBounded c (pos n) key value b = elim (Bool-cases (leb max_servers n)) [
  | inl out ↦ rw out b
  | inr inside ↦ rw inside (record {
    array = length-update_at c.servers n key value ∙ b.array;
    each = update_at-IsServerBounded c.servers n key value b.each;
    counted = ground (arith, inside, b.counted);
    stored = b.stored;
    logged = b.logged;
    monitored = b.monitored;
  })
]

parse_section_arrays :
    (c : Config)
    (b : FitsArrays c.servers c.server_count c.local_storage_path c.log_file c.monitoring_data_path)
    (section key value : List ℕ)
    → IsBounded (parse_section c section key value).1
unfolding parse_section
parse_section_arrays c b section key value =
    if_lem (λ (r : ErrorCode × Config). IsBounded r.1) (is_text section "general")
      (parse_general-IsBounded c b value key)
      (if_lem (λ (r : ErrorCode × Config). IsBounded r.1) (is_text (take 7 section) "server_")
        (parse_server_at-IsBounded c _ key value (bounded c b))
        (if_lem (λ (r : ErrorCode × Config). IsBounded r.1) (is_text section "repair")
          (parse_repair-IsBounded c b value key)
          (if_lem (λ (r : ErrorCode × Config). IsBounded r.1) (is_text section "monitoring")
            (parse_monitoring-IsBounded c b value key)
            (if_lem (λ (r : ErrorCode × Config). IsBounded r.1) (is_text section "security")
              (parse_security-IsBounded c b value key) (bounded c b)))))

-- Setting a key keeps the invariant, whatever section, key and value the file holds.
pub parse_section-IsBounded :
    (c : Config) (section key value : List ℕ)
    → IsBounded c
    → IsBounded (parse_section c section key value).1
unfolding IsBounded
parse_section-IsBounded c section key value b = parse_section_arrays c b section key value
