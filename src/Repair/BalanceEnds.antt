-- ===== src/Repair/BalanceEnds.antt =====
-- The loops of `netchunk_repair_rebalance_chunks` of src/repair.c end.
use mathlib.Core.Path.{subst}
use net_chunk.Base.{
  ℕ, zero, suc, ◌+◌, ◌-◌, ◌<◌, ◌≤◌, List, [], ◌∷◌, ◌≡◌, ◌≢◌, refl, sym, ap, arith, All, ltb, ltb→lt,
  is_some, length, get_or, set, replicate, inl, inr, Bool-cases, Option-cases, if◌then◌else◌,
}
use net_chunk.Libc.Text.{same_text}
use net_chunk.Chunker.Types.{Location, Chunk}
use net_chunk.Chunker.Table.{Holds}
use net_chunk.Config.Types.{Server, Config}
use net_chunk.Ftp.Remote.{Remote}
use net_chunk.Repair.Types.{live, first_server}
use net_chunk.Repair.Replicate.{count_replica}
use net_chunk.Repair.Rebalance.{
  count_locations, count_chunks, target_count, find_underloaded, Balance, move_first, unloaded,
  unload, unload_all,
}
use net_chunk.Repair.BalanceLaws.{find_underloaded_lem}

All-set :
    (n : ℕ) (us : List ℕ) (i v : ℕ) → All (λ u. u ≤ n) us → v ≤ n → All (λ u. u ≤ n) (set us i v)
All-set n [] i v h le = tt
All-set n (u ∷ us) zero v h le = (le, h.1)
All-set n (u ∷ us) (suc i) v h le = (h.0, All-set n us i v h.1 le)

get_or-le : (n : ℕ) (us : List ℕ) (i : ℕ) → All (λ u. u ≤ n) us → get_or us i 0 ≤ n
get_or-le n [] i h = omega arith
get_or-le n (u ∷ us) zero h = h.0
get_or-le n (u ∷ us) (suc i) h = get_or-le n us i h.1

get_or-set_self : (us : List ℕ) (i v : ℕ) → get_or (set us i v) i 0 ≤ v
get_or-set_self [] i v = omega arith
get_or-set_self (u ∷ us) zero v = omega arith
get_or-set_self (u ∷ us) (suc i) v = get_or-set_self us i v

get_or-set_ne : (us : List ℕ) (i j v : ℕ) → i ≢ j → get_or (set us i v) j 0 ≡ get_or us j 0
get_or-set_ne [] i j v ne = refl
get_or-set_ne (u ∷ us) zero zero v ne = absurd (ne refl)
get_or-set_ne (u ∷ us) zero (suc j) v ne = refl
get_or-set_ne (u ∷ us) (suc i) zero v ne = refl
get_or-set_ne (u ∷ us) (suc i) (suc j) v ne = get_or-set_ne us i j v (λ e. ne (ap suc e))

pub All-weaken : (n k : ℕ) (us : List ℕ) → n ≤ k → All (λ u. u ≤ n) us → All (λ u. u ≤ k) us
All-weaken n k [] le h = tt
All-weaken n k (u ∷ us) le h = (omega arith, All-weaken n k us le h.1)

pub All-replicate : (n k : ℕ) → All (λ u. u ≤ n) (replicate k 0)
unfolding replicate
All-replicate n zero = tt
All-replicate n (suc k) = (omega arith, All-replicate n k)

count_replica-le :
    (n : ℕ) (key : List ℕ) (servers : List Server) (us : List ℕ)
    → All (λ u. u ≤ n) us
    → All (λ u. u ≤ suc n) (count_replica key servers us)
unfolding count_replica
count_replica-le n key [] us h = All-weaken n (suc n) us (omega arith) h
count_replica-le n key (s ∷ ss) [] h = tt
count_replica-le n key (s ∷ ss) (u ∷ us) h = elim (Bool-cases (same_text key s.id)) [
  | inl e ↦ rw (count_replica, e) (omega arith, All-weaken n (suc n) us (omega arith) h.1)
  | inr e ↦ rw (count_replica, e) (omega arith, count_replica-le n key ss us h.1)
]

-- The counts of the servers and their sum are at most `n`.
abbrev pub AreAtMost : ℕ → List ℕ × ℕ → Type 0
AreAtMost n (us, total) = All (λ u. u ≤ n) us × (total ≤ n)

count_locations-AreAtMost :
    (n k : ℕ) (servers : List Server) (ls : List Location) (state : List ℕ × ℕ)
    → AreAtMost n state
    → n + length ls ≤ k
    → AreAtMost k (count_locations servers ls state)
unfolding count_locations
count_locations-AreAtMost n k servers [] (us, total) h le =
    (All-weaken n k us (omega arith) h.0, omega arith)
count_locations-AreAtMost n k servers (l ∷ ls) (us, total) h le =
    count_locations-AreAtMost (suc n) k servers ls
      (
        count_replica l.server_id servers us,
        if is_some (first_server servers l.server_id) then suc total else total,
      )
      (count_replica-le n l.server_id servers us h.0, ground arith) (omega arith)

-- The replicas of all chunks.
abbrev pub replicas : List Chunk → ℕ
replicas [] = 0
replicas (c ∷ cs) = length c.locations + replicas cs

pub count_chunks-AreAtMost :
    (n k : ℕ) (servers : List Server) (cs : List Chunk) (state : List ℕ × ℕ)
    → AreAtMost n state
    → n + replicas cs ≤ k
    → AreAtMost k (count_chunks servers cs state)
unfolding count_chunks
count_chunks-AreAtMost n k servers [] (us, total) h le =
    (All-weaken n k us (omega arith) h.0, omega arith)
count_chunks-AreAtMost n k servers (c ∷ cs) state h le =
    count_chunks-AreAtMost (n + length c.locations) k servers cs
      (count_locations servers c.locations state)
      (count_locations-AreAtMost n (n + length c.locations) servers c.locations state h
        (omega arith))
      (omega arith)

all_servers : (servers : List Server) → All (λ s. Unit {0}) servers
all_servers [] = tt
all_servers (s ∷ servers) = (tt, all_servers servers)

module _ {W : Type 0} (r : Remote W) (clock : W → ℕ) (garbage : Location) where
  -- The counts stay below `n`, which is above the average.
  abbrev pub IsCounted : ℕ → Balance W → Type 0
  IsCounted n b = All (λ u. u ≤ n) b.counts

  -- A move takes a chunk from the server, and gives one to another.
  unloaded-counts :
      (n : ℕ) (config : Config) (average remainder s t : ℕ) (from to : Server) (b : Balance W)
      → average < n
      → IsCounted n b
      → target_count average remainder s < get_or b.counts s 0
      → get_or b.counts t 0 < target_count average remainder t
      → let next = unloaded r clock garbage config s from (t, to) b in
        IsCounted n next × (get_or next.counts s 0 < get_or b.counts s 0)
  unloaded-counts n config average remainder s t from to b above h over under =
      let down = set b.counts s (get_or b.counts s 0 - 1) in
      let here = get_or-le n b.counts s h in
      let other : s ≢ t = λ e. absurd (
        omega (
          arith,
          over,
          subst (λ x. get_or b.counts x 0 < target_count average remainder x) (sym e) under,
        )) in
      let same = get_or-set_ne b.counts s t (get_or b.counts s 0 - 1) other in
      (
        All-set n down t (get_or down t 0 + 1)
            (All-set n b.counts s (get_or b.counts s 0 - 1) h (omega (arith, here)))
            (ground (arith, same, under, above)),
        omega (
          arith,
          over,
          get_or-set_self b.counts s (get_or b.counts s 0 - 1),
          get_or-set_ne down t s (get_or down t 0 + 1) (λ e. other (sym e)),
        ),
      )

  unload-Holds :
      (fuel n : ℕ) (config : Config) (average remainder s : ℕ) (from : Server) (b : Balance W)
      → average < n
      → IsCounted n b
      → get_or b.counts s 0 < fuel
      → Holds (IsCounted n) (unload r clock garbage fuel config average remainder s from b)
  unfolding unload
  unload-Holds zero n config average remainder s from b above h enough = absurd (omega arith)
  unload-Holds (suc fuel) n config average remainder s from b above h enough =
      elim (Bool-cases (ltb (target_count average remainder s) (get_or b.counts s 0))) [
        | inr e ↦ rw (unload, e) h
        | inl e ↦
            elim (Option-cases (find_underloaded average remainder 0 (live config) b.counts)) [
              | inl u ↦ rw (unload, e, u) h
              | inr ((t, to), u) ↦
                  elim (Bool-cases (move_first r clock garbage config from to b.chunks b.world).0) [
                    | inr m ↦ rw (unload, e, u, m) h
                    | inl m ↦
                        let step =
                          unloaded-counts n config average remainder s t from to b above h
                            (ltb→lt (target_count average remainder s) (get_or b.counts s 0) e)
                            (find_underloaded_lem (λ x. Unit {0}) average remainder (live config)
                              b.counts t to (all_servers (live config)) u).1 in
                        let next = unloaded r clock garbage config s from (t, to) b in
                        rw (unload, e, u, m)
                          (unload-Holds fuel n config average remainder s from next above step.0
                            (omega (arith, step.1, enough)))
                  ]
            ]
      ]

  pub unload_all-Holds :
      (fuel n : ℕ) (config : Config) (average remainder s : ℕ) (servers : List Server)
      (b : Balance W)
      → average < n
      → n < fuel
      → IsCounted n b
      → Holds (IsCounted n) (unload_all r clock garbage fuel config average remainder s servers b)
  unfolding unload_all
  unload_all-Holds fuel n config average remainder s [] b above enough h = h
  unload_all-Holds fuel n config average remainder s (from ∷ servers) b above enough h =
      let first =
        unload-Holds fuel n config average remainder s from b above h
          (omega (arith, get_or-le n b.counts s h, enough)) in
      elim (Option-cases (unload r clock garbage fuel config average remainder s from b)) [
        | inl e ↦ absurd (subst (Holds (IsCounted n)) e first)
        | inr (b1, e) ↦
            rw (unload_all, e)
              (unload_all-Holds fuel n config average remainder (suc s) servers b1 above enough
                (subst (Holds (IsCounted n)) e first))
      ]
