-- ===== src/Api/OperationLaws.antt =====
-- What `netchunk_health_check` of src/netchunk.c counts.
use net_chunk.Base.{ℕ, ◌≤◌, some, List, [], ◌∷◌, ◌≡◌, arith, length, take, length-take, ok}
use net_chunk.Config.Types.{Server, Config}
use net_chunk.Ftp.Remote.{Remote}
use net_chunk.Repair.Types.{live}
use net_chunk.Api.Types.{Context, ready}
use net_chunk.Api.Operations.{count_reachable, health_check}

module _ {W : Type 0} (r : Remote W) where
  count_reachable_le : (ss : List Server) (w : W) → (count_reachable r ss w).0 ≤ length ss
  unfolding count_reachable
  count_reachable_le [] w = omega arith
  count_reachable_le (s ∷ ss) w = ground (arith, count_reachable_le ss (r.test_connection s w).1)

  -- A health check counts no more healthy servers than servers, and reports the configured number
  -- of servers.
  pub health_check_le :
      (context : Context) (config : Config) (w : W) (n total : ℕ)
      → ready context ≡ some config
      → (health_check r context w).0 ≡ ok (n, total)
      → (n ≤ total) × (total ≡ config.server_count)
  unfolding health_check live
  health_check_le context config w n total set e =
      let counted : n ≡ (count_reachable r (take config.server_count config.servers) w).0 =
        ground (arith, set, e) in
      let all : total ≡ config.server_count = ground (arith, set, e) in
      (
        omega (
          arith,
          counted,
          all,
          count_reachable_le (take config.server_count config.servers) w,
          length-take config.server_count config.servers,
        ),
        all,
      )
