-- ===== src/Config/ServerBounds.antt =====
-- The bounds of a server's arrays, and the keys of a server section.
use net_chunk.Base.{
  ℕ, zero, suc, ◌-◌, ◌^◌, ◌<◌, Bool, true, false, List, [], ◌∷◌, ◌≡◌, refl, ap, arith,
  if◌then◌else◌, length, length-take, All,
}
use net_chunk.Base.Int.{ℤ, pos, negsuc}
use net_chunk.Libc.Text.{is_text}
use net_chunk.Chunker.Types.{max_path_len}
use net_chunk.Config.Types.{Server, max_host_len, max_user_len, max_pass_len}
use net_chunk.Config.Values.{parse_int, to_uint16}
use net_chunk.Config.Parse.{copy_text, parse_server, update_at}

pub record FitsServer (host user pass base : List ℕ) (number : ℕ) : Type 0 where
  pub hosted : length host < max_host_len
  pub named : length user < max_user_len
  pub secret : length pass < max_pass_len
  pub based : length base < max_path_len
  pub numbered : number < 2 ^ 16

-- A server's texts and their NULs fit in the arrays, and the port in 16 bits.
unfoldable pub IsServerBounded : Server → Type 0
IsServerBounded s = FitsServer s.host s.username s.password s.base_path s.port

server_bounded :
    (s : Server) → FitsServer s.host s.username s.password s.base_path s.port → IsServerBounded s
unfolding IsServerBounded
server_bounded s b = b

-- A predicate of both branches holds of a conditional.
pub if_lem {ℓ κ} :
    {A : Type ℓ} (P : A → Type κ) (b : Bool) {x y : A} → P x → P y → P (if b then x else y)
if_lem P true p q = p
if_lem P false p q = q

pub copy_text-fits : (n : ℕ) (value : List ℕ) → 0 < n → length (copy_text n value) < n
copy_text-fits n value h = omega (arith, length-take (n - 1) value)

to_uint16_bounds : (n : ℤ) → to_uint16 n < 2 ^ 16
unfolding to_uint16
to_uint16_bounds (pos n) = omega arith
to_uint16_bounds (negsuc n) = omega arith

parse_server_fits :
    (s : Server) (b : FitsServer s.host s.username s.password s.base_path s.port)
    (key value : List ℕ)
    → IsServerBounded (parse_server s key value)
unfolding parse_server
parse_server_fits s b key value =
    if_lem IsServerBounded (is_text key "host")
      (server_bounded _ (record {
        hosted = copy_text-fits _ value (omega arith);
        named = b.named;
        secret = b.secret;
        based = b.based;
        numbered = b.numbered;
      }))
      (if_lem IsServerBounded (is_text key "port")
        (server_bounded _ (record {
          hosted = b.hosted;
          named = b.named;
          secret = b.secret;
          based = b.based;
          numbered = to_uint16_bounds (parse_int value);
        }))
        (if_lem IsServerBounded (is_text key "username")
          (server_bounded _ (record {
            hosted = b.hosted;
            named = copy_text-fits _ value (omega arith);
            secret = b.secret;
            based = b.based;
            numbered = b.numbered;
          }))
          (if_lem IsServerBounded (is_text key "password")
            (server_bounded _ (record {
              hosted = b.hosted;
              named = b.named;
              secret = copy_text-fits _ value (omega arith);
              based = b.based;
              numbered = b.numbered;
            }))
            (if_lem IsServerBounded (is_text key "base_path")
              (server_bounded _ (record {
                hosted = b.hosted;
                named = b.named;
                secret = b.secret;
                based = copy_text-fits _ value (omega arith);
                numbered = b.numbered;
              }))
              (if_lem IsServerBounded (is_text key "use_ssl") (server_bounded _ b) (
                if_lem IsServerBounded (is_text key "passive_mode") (server_bounded _ b) (
                  if_lem IsServerBounded (is_text key "priority") (server_bounded _ b)
                    (server_bounded _ b))))))))

parse_server-IsServerBounded :
    (s : Server) (key value : List ℕ)
    → IsServerBounded s
    → IsServerBounded (parse_server s key value)
unfolding IsServerBounded
parse_server-IsServerBounded s key value b = parse_server_fits s b key value

pub update_at-IsServerBounded :
    (ss : List Server) (i : ℕ) (key value : List ℕ)
    → All IsServerBounded ss
    → All IsServerBounded (update_at ss i key value)
unfolding update_at
update_at-IsServerBounded [] i key value h = tt
update_at-IsServerBounded (s ∷ ss) zero key value h =
    (parse_server-IsServerBounded s key value h.0, h.1)
update_at-IsServerBounded (s ∷ ss) (suc i) key value h =
    (h.0, update_at-IsServerBounded ss i key value h.1)

pub length-update_at :
    (ss : List Server) (i : ℕ) (key value : List ℕ) → length (update_at ss i key value) ≡ length ss
unfolding update_at
length-update_at [] i key value = refl
length-update_at (s ∷ ss) zero key value = refl
length-update_at (s ∷ ss) (suc i) key value = ap suc (length-update_at ss i key value)
