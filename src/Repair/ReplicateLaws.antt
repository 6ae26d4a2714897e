-- ===== src/Repair/ReplicateLaws.antt =====
-- What `netchunk_repair_chunk` of src/repair.c adds to a chunk.
use mathlib.Core.Path.{subst}
use net_chunk.Base.{
  ℕ, zero, suc, ◌+◌, ◌≤◌, ◌⊎◌, some, List, [], ◌∷◌, ◌++◌, ◌≡◌, refl, sym, arith, All, length,
  get_elem?, length-append, take_all, ltb, inl, inr, Bool-cases, Option-cases, ErrorCode, failed,
  ok,
}
use net_chunk.Base.Int.{ℤ, pos, pos_part, ◌-ℤ◌, ◌≤ℤ◌}
use net_chunk.Chunker.Types.{Location, Chunk, max_chunk_locations}
use net_chunk.Chunker.Table.{Absent, IsTable}
use net_chunk.Chunker.TableRemove.{append-AreDistinct}
use net_chunk.Config.Types.{Server, Config}
use net_chunk.Ftp.Remote.{Remote, kept, with_pointer}
use net_chunk.Repair.Types.{RepairContext, ready, live}
use net_chunk.Repair.Replicate.{
  placed, replicas_needed, select_server_for_replica, find_data, note_replica, add_replicas,
  repair_chunk,
}
use net_chunk.Repair.ChooseLaws.{AreServersDistinct, select_server_for_replica_holds}

-- The id fits in the array of a location.
abbrev pub HasShortId : Server → Type 0
HasShortId s = length s.id ≤ 63

-- What the loop for new replicas keeps: `n` turns go from a chunk and a count to others.
record Grows (n : ℕ) (before after : Chunk × ℕ) : Type 0 where
  pub added : length after.0.locations + before.1 ≡ length before.0.locations + after.1
  pub few : after.1 ≤ before.1 + n
  pub more : before.1 ≤ after.1
  pub stay :
      (i : ℕ) (l : Location)
      → get_elem? before.0.locations i ≡ some l
      → get_elem? after.0.locations i ≡ some l

-- A chunk before a repair with a target, and the chunk and the number of replicas added after it.
pub record IsExtended (target : ℤ) (before : Chunk) (after : Chunk × ℕ) : Type 0 where
  pub added : length after.0.locations ≡ length before.locations + after.1
  pub within : (after.1 ≡ 0) ⊎ (pos (length after.0.locations) ≤ℤ target)
  pub stay :
      (i : ℕ) (l : Location)
      → get_elem? before.locations i ≡ some l
      → get_elem? after.0.locations i ≡ some l

within_target :
    (target : ℤ) (old new added : ℕ)
    → new ≡ old + added
    → added ≤ 0 + pos_part (target -ℤ pos old)
    → (added ≡ 0) ⊎ (pos new ≤ℤ target)
unfolding ◌-ℤ◌
within_target target old new added e few = ground arith

Grows-none : (n : ℕ) (state : Chunk × ℕ) → Grows n state state
Grows-none n state = record {
  added = refl;
  few = omega arith;
  more = omega arith;
  stay = λ i l e. e;
}

Grows-later : (n : ℕ) (a b c : Chunk × ℕ) → Grows 1 a b → Grows n b c → Grows (suc n) a c
Grows-later n a b c g h = record {
  added = omega (arith, g.added, h.added);
  few = omega (arith, g.few, h.few);
  more = omega (arith, g.more, h.more);
  stay = λ i l e. h.stay i l (g.stay i l e);
}

get_elem?-append :
    (ls ks : List Location) (i : ℕ) (l : Location)
    → get_elem? ls i ≡ some l
    → get_elem? (ls ++ ks) i ≡ some l
get_elem?-append [] ks i l e = cc
get_elem?-append (x ∷ ls) ks zero l e = e
get_elem?-append (x ∷ ls) ks (suc i) l e = get_elem?-append ls ks i l e

module _ {W : Type 0} (r : Remote W) (clock : W → ℕ) (garbage : Location) where
  note_replica-Grows :
      (server : Server) (w : W) (code : ErrorCode) (state : Chunk × ℕ)
      → Grows 1 state (note_replica r clock garbage server w code state)
  unfolding note_replica
  note_replica-Grows server w code (chunk, n) =
      let new = placed garbage server (clock w) ∷ [] in
      elim (Bool-cases (failed code)) [
        | inl f ↦ rw f (Grows-none 1 (chunk, n))
        | inr f ↦ elim (Bool-cases (ltb (length chunk.locations) max_chunk_locations)) [
          | inr full ↦ rw (f, full) (Grows-none 1 (chunk, n))
          | inl room ↦
              rw (f, room)
                (record {
                  added = omega (arith, length-append chunk.locations new);
                  few = omega arith;
                  more = omega arith;
                  stay = get_elem?-append chunk.locations new;
                })
        ]
      ]

  note_replica-IsTable :
      (server : Server) (w : W) (code : ErrorCode) (state : Chunk × ℕ)
      → HasShortId server
      → Absent server.id state.0.locations
      → IsTable state.0.locations
      → IsTable (note_replica r clock garbage server w code state).0.locations
  unfolding note_replica
  note_replica-IsTable server w code (chunk, n) short absent t =
      let new = placed garbage server (clock w) in
      elim (Bool-cases (failed code)) [
        | inl f ↦ rw f t
        | inr f ↦ elim (Bool-cases (ltb (length chunk.locations) max_chunk_locations)) [
          | inr full ↦ rw (f, full) t
          | inl room ↦
              rw (f, room)
                (record {
                  room = ground (arith, length-append chunk.locations (new ∷ []), room);
                  distinct =
                      append-AreDistinct chunk.locations new
                        (subst (λ k. Absent k chunk.locations) (sym (take_all 63 server.id short))
                          absent)
                        t.distinct;
                })
        ]
      ]

  add_replicas-Grows :
      (n : ℕ) (config : Config) (working : Chunk) (state : Chunk × ℕ) (w : W)
      → Grows n state (add_replicas r clock garbage n config working state w).0
  unfolding add_replicas
  add_replicas-Grows zero config working state w = Grows-none 0 state
  add_replicas-Grows (suc n) config working state w =
      let w1 = (select_server_for_replica r config state.0 w).1 in
      elim (Option-cases (select_server_for_replica r config state.0 w).0) [
        | inl e ↦ rw (add_replicas, e) (Grows-none (suc n) state)
        | inr (server, e) ↦
            let (code, w2) = r.upload_chunk server working w1 in
            rw (add_replicas, e)
              (Grows-later n state (note_replica r clock garbage server w2 code state)
                (add_replicas r clock garbage n config working
                  (note_replica r clock garbage server w2 code state) w2).0
                (note_replica-Grows server w2 code state)
                (add_replicas-Grows n config working
                  (note_replica r clock garbage server w2 code state) w2))
      ]

  add_replicas-IsTable :
      (n : ℕ) (config : Config) (working : Chunk) (state : Chunk × ℕ) (w : W)
      → AreServersDistinct (live config)
      → All HasShortId (live config)
      → IsTable state.0.locations
      → IsTable (add_replicas r clock garbage n config working state w).0.0.locations
  unfolding add_replicas
  add_replicas-IsTable zero config working state w d short t = t
  add_replicas-IsTable (suc n) config working state w d short t =
      let w1 = (select_server_for_replica r config state.0 w).1 in
      elim (Option-cases (select_server_for_replica r config state.0 w).0) [
        | inl e ↦ rw (add_replicas, e) t
        | inr (server, e) ↦
            let (code, w2) = r.upload_chunk server working w1 in
            let chosen =
              select_server_for_replica_holds r HasShortId config state.0 w server d short e in
            rw (add_replicas, e)
              (add_replicas-IsTable n config working
                (note_replica r clock garbage server w2 code state) w2 d short
                (note_replica-IsTable server w2 code state chosen.1 chosen.0 t))
      ]

  repair_chunk_grown :
      (context : RepairContext) (chunk : Chunk) (target : ℤ) (w : W) (state : Chunk × ℕ)
      → (repair_chunk r clock garbage context chunk target w).0 ≡ ok state
      → Grows (replicas_needed target chunk) (chunk, 0) state
  unfolding repair_chunk
  repair_chunk_grown context chunk target w state e = elim (Option-cases (ready context)) [
    | inl unset ↦ ground (arith, unset, e)
    | inr (config, set) ↦
        let ((found, p), w1) = find_data r config chunk kept chunk.locations w in
        let same : (add_replicas r clock garbage (replicas_needed target chunk) config
              (with_pointer chunk p) (chunk, 0) w1).0
            ≡ state =
          ground (arith, set, e) in
        subst (Grows (replicas_needed target chunk) (chunk, 0)) same (
          add_replicas-Grows (replicas_needed target chunk) config (with_pointer chunk p) (chunk, 0)
            w1)
  ]

  -- A repair that succeeds keeps every location of the chunk where it is and puts behind them as
  -- many as it reports; if it adds any, the chunk has no more locations then than the target.
  pub repair_chunk-IsExtended :
      (context : RepairContext) (chunk : Chunk) (target : ℤ) (w : W) (state : Chunk × ℕ)
      → (repair_chunk r clock garbage context chunk target w).0 ≡ ok state
      → IsExtended target chunk state
  repair_chunk-IsExtended context chunk target w state e =
      let g = repair_chunk_grown context chunk target w state e in
      record {
        added = omega (arith, g.added);
        stay = g.stay;
        within =
            within_target target (length chunk.locations) (length state.0.locations) state.1
              (omega (arith, g.added)) g.few;
      }

  -- A repair that succeeds keeps the table of locations within ten entries, no two of one server,
  -- if it was so before, no two of the configured servers have one id, and no id is longer than
  -- the 63 characters that a location holds.
  pub repair_chunk-IsTable :
      (context : RepairContext) (config : Config) (chunk : Chunk) (target : ℤ) (w : W)
      (state : Chunk × ℕ)
      → ready context ≡ some config
      → AreServersDistinct (live config)
      → All HasShortId (live config)
      → IsTable chunk.locations
      → (repair_chunk r clock garbage context chunk target w).0 ≡ ok state
      → IsTable state.0.locations
  unfolding repair_chunk
  repair_chunk-IsTable context config chunk target w state set d short t e =
      let ((found, p), w1) = find_data r config chunk kept chunk.locations w in
      let same : (add_replicas r clock garbage (replicas_needed target chunk) config
            (with_pointer chunk p) (chunk, 0) w1).0
          ≡ state =
        ground (arith, set, e) in
      subst (λ s. IsTable s.0.locations) same
        (add_replicas-IsTable (replicas_needed target chunk) config (with_pointer chunk p)
          (chunk, 0) w1 d short t)
