-- ===== src/Ftp/PoolLaws.antt =====
-- Who holds the connections of the pool of src/ftp_client.c.
use mathlib.Core.Path.{subst}
use net_chunk.Base.{
  ℕ, zero, suc, ◌+◌, ◌≤◌, Bool, false, not, Option, none, some, List, [], ◌∷◌, ◌++◌, ◌≡◌, refl, sym,
  ap, arith, if◌then◌else◌, get_elem?, set, take, ◌&&◌, ◌==◌, inl, inr, Bool-cases, Option-cases,
  Result-cases, ErrorCode, success, failed, ok,
}
use net_chunk.Base.Int.{pos, negsuc}
use net_chunk.Config.Types.{Server, Config}
use net_chunk.Ftp.Connection.{Connection}
use net_chunk.Ftp.Pool.{
  Pool, max_connections, new_connection, init_connections, pool_init, take_connection, pool_acquire,
  pool_release, System, Step, acquire, refuse, release, operate, Reach, stay, step,
}

-- How often the index is held.
abbrev pub holders : ℕ → List ℕ → ℕ
holders i [] = 0
holders i (j ∷ js) = if i == j then suc (holders i js) else holders i js

holders-append : (i : ℕ) (js ks : List ℕ) → holders i (js ++ ks) ≡ holders i js + holders i ks
holders-append i [] ks = omega arith
holders-append i (j ∷ js) ks = ground (arith, holders-append i js ks)

-- 1 for a connection that is marked in use.
abbrev pub mark : Option Connection → ℕ
mark none = 0
mark (some c) = if c.in_use then 1 else 0

mark-set :
    (cs : List Connection) (i : ℕ) (c c' : Connection) (j : ℕ)
    → get_elem? cs i ≡ some c
    → mark (get_elem? (set cs i c') j) ≡ (if j == i then mark (some c') else mark (get_elem? cs j))
mark-set [] i c c' j e = cc
mark-set (x ∷ cs) zero c c' zero e = refl
mark-set (x ∷ cs) zero c c' (suc j) e = ground arith
mark-set (x ∷ cs) (suc i) c c' zero e = ground arith
mark-set (x ∷ cs) (suc i) c c' (suc j) e = ground (arith, mark-set cs i c c' j e)

take_connection-mark :
    (c : Connection) (made : Bool) (now : ℕ)
    → (take_connection c made now).1.in_use ≡ not (failed (take_connection c made now).0)
unfolding take_connection
take_connection-mark c made now = ground arith

-- An acquisition that answers: the marks before and after.
pool_acquire-mark :
    (pool pool' : Pool) (i : ℕ) (made : Bool) (now : ℕ) (code : ErrorCode) (j : ℕ)
    → pool_acquire pool (pos i) made now ≡ some (code, pool')
    → ((failed code ≡ false) → mark (get_elem? pool.connections i) ≡ 0)
      × (mark (get_elem? pool'.connections j)
          ≡ (if (j == i) && not (failed code) then 1 else mark (get_elem? pool.connections j)))
unfolding pool_acquire
pool_acquire-mark pool pool' i made now code j e =
    elim (Option-cases (get_elem? pool.connections i)) [
      | inl missing ↦ (λ f. ground (arith, missing), ground (arith, missing, e))
      | inr (c, found) ↦ elim (Bool-cases c.in_use) [
        | inl used ↦ absurd (ground (arith, found, used, e))
        | inr free ↦
            let c' = (take_connection c made now).1 in
            let taken : code ≡ (take_connection c made now).0 = ground (arith, found, free, e) in
            let same : set pool.connections i c' ≡ pool'.connections =
              ground (arith, found, free, e) in
            (
              λ f. ground (arith, found, free),
              subst
                  (λ cs. mark (get_elem? cs j) ≡ (
                    if (j == i) && not (failed code)
                    then 1
                    else mark (get_elem? pool.connections j)))
                  same
                  (ground (
                    arith,
                    taken,
                    found,
                    free,
                    take_connection-mark c made now,
                    mark-set pool.connections i c c' j found,
                  )),
            )
      ]
    ]

pool_acquire_negative :
    (pool pool' : Pool) (n : ℕ) (made : Bool) (now : ℕ) (code : ErrorCode)
    → pool_acquire pool (negsuc n) made now ≡ some (code, pool')
    → pool' ≡ pool
unfolding pool_acquire
pool_acquire_negative pool pool' n made now code e = cc

-- Each connection is held as often as it is marked in use: once or not at all.
abbrev pub IsExclusive : System → Type 0
IsExclusive s = (i : ℕ) → holders i s.held ≡ mark (get_elem? s.pool.connections i)

Step-IsExclusive : (s t : System) → Step s t → IsExclusive s → IsExclusive t
unfolding pool_release
Step-IsExclusive s t (acquire i made now e) h j =
    ground (arith, h j, h i, pool_acquire-mark s.pool t.pool i made now success j e)
Step-IsExclusive s t (refuse (pos i) made now code e f) h j =
    ground (arith, h j, pool_acquire-mark s.pool t.pool i made now code j e, f)
Step-IsExclusive s t (refuse (negsuc n) made now code e f) h j = ground (
  arith,
  h j,
  ap (λ q. mark (get_elem? q.connections j))
      (pool_acquire_negative s.pool t.pool n made now code e),
)
Step-IsExclusive s t (release before after i now) h j =
    let here = holders-append i before (i ∷ after) in
    let whole = holders-append j before (i ∷ after) in
    let less = holders-append j before after in
    elim (Option-cases (get_elem? s.pool.connections i)) [
      | inl missing ↦ absurd (ground (arith, missing, here, h i))
      | inr (c, found) ↦ ground (
        arith,
        found,
        whole,
        less,
        here,
        h i,
        h j,
        mark-set s.pool.connections i c (record c { in_use = false; last_used = now }) j found,
      )
    ]
Step-IsExclusive s t (operate i c c' e f) h j =
    ground (arith, h j, mark-set s.pool.connections i c c' j e, e, f)

Reach-IsExclusive : (s t : System) → Reach s t → IsExclusive s → IsExclusive t
Reach-IsExclusive s t stay h = h
Reach-IsExclusive s t (step {s = u} r x) h = Step-IsExclusive u t x (Reach-IsExclusive s u r h)

mark_le : (o : Option Connection) → mark o ≤ 1
mark_le none = omega arith
mark_le (some c) = ground arith

first_free :
    (s : Server) (rest : List Connection) (j : ℕ)
    → ((k : ℕ) → mark (get_elem? rest k) ≡ 0)
    → mark (get_elem? (new_connection s ∷ rest) j) ≡ 0
first_free s rest zero h = refl
first_free s rest (suc j) h = h j

init_connections_free :
    (mutex_made : ℕ → Bool) (i : ℕ) (ss : List Server) (cs : List Connection) (j : ℕ)
    → init_connections mutex_made i ss ≡ ok cs
    → mark (get_elem? cs j) ≡ 0
unfolding init_connections
init_connections_free mutex_made i [] cs j e =
    let same : [] ≡ cs = ground (arith, e) in subst (λ v. mark (get_elem? v j) ≡ 0) same refl
init_connections_free mutex_made i (s ∷ ss) cs j e =
    elim (Result-cases (init_connections mutex_made (suc i) ss)) [
      | inl (code, f) ↦ absurd (ground (arith, f, e))
      | inr (rest, f) ↦
          let same : new_connection s ∷ rest ≡ cs = ground (arith, f, e) in
          subst (λ v. mark (get_elem? v j) ≡ 0) same
            (first_free s rest j (λ k. init_connections_free mutex_made (suc i) ss rest k f))
    ]

pool_init_free :
    (pool_made : Bool) (mutex_made : ℕ → Bool) (config : Config) (pool : Pool) (j : ℕ)
    → pool_init pool_made mutex_made config ≡ ok pool
    → mark (get_elem? pool.connections j) ≡ 0
unfolding pool_init
pool_init_free pool_made mutex_made config pool j made =
    let servers = take max_connections (take config.server_count config.servers) in
    elim (Result-cases (init_connections mutex_made 0 servers)) [
      | inl (code, f) ↦ absurd (ground (arith, f, made))
      | inr (cs, f) ↦
          let same : cs ≡ pool.connections = ground (arith, f, made) in
          subst (λ v. mark (get_elem? v j) ≡ 0) same
            (init_connections_free mutex_made 0 servers cs j f)
    ]

-- From a new pool, as long as its callers release only connections that they hold, no connection is
-- held by two of them, in whatever order they call, and a connection is marked in use exactly while it
-- is held.
pub pool_exclusive :
    (pool_made : Bool) (mutex_made : ℕ → Bool) (config : Config) (pool : Pool) (s : System) (i : ℕ)
    → pool_init pool_made mutex_made config ≡ ok pool
    → Reach (record { pool = pool; held = [] }) s
    → (holders i s.held ≤ 1) × (holders i s.held ≡ mark (get_elem? s.pool.connections i))
unfolding pool_init
pool_exclusive pool_made mutex_made config pool s i made r =
    let start : IsExclusive (record { pool = pool; held = [] }) =
      λ j. sym (pool_init_free pool_made mutex_made config pool j made) in
    let marked = Reach-IsExclusive (record { pool = pool; held = [] }) s r start i in
    (omega (arith, marked, mark_le (get_elem? s.pool.connections i)), marked)
