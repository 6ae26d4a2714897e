-- ===== src/Repair/ChooseLaws.antt =====
-- The server that `select_server_for_replica` of src/repair.c chooses.
use mathlib.Core.Path.{subst, sym}
use net_chunk.Base.{
  ℕ, Option, none, some, List, [], ◌∷◌, ◌≡◌, ◌≢◌, arith, All, replicate, if◌then◌else◌, ◌&&◌, ltb,
  ◌==◌, inl, inr, Bool-cases, ErrorCode, failed,
}
use net_chunk.Libc.Text.{same_text, same_text_iff}
use net_chunk.Chunker.Types.{Location, Chunk}
use net_chunk.Chunker.Table.{Absent}
use net_chunk.Config.Types.{Server, Config, max_servers}
use net_chunk.Ftp.Remote.{Remote}
use net_chunk.Repair.Types.{live}
use net_chunk.Repair.Replicate.{
  count_replica, count_usage, choose_server, select_server_for_replica,
}

-- No two servers have one id.
abbrev IsOther : List ℕ → Server → Type 0
IsOther key s = key ≢ s.id

abbrev pub AreServersDistinct : List Server → Type 0
AreServersDistinct [] = Unit
AreServersDistinct (s ∷ ss) = All (IsOther s.id) ss × AreServersDistinct ss

-- A server of which no replica is counted meets the predicate.
abbrev AreUnused : (Server → Type 0) → List Server → List ℕ → Type 0
AreUnused P [] us = Unit
AreUnused P (s ∷ ss) [] = Unit
AreUnused P (s ∷ ss) (u ∷ us) = ((u ≡ 0) → P s) × AreUnused P ss us

AreUnused-map :
    (P Q : Server → Type 0)
    → ((s : Server) → P s → Q s)
    → (ss : List Server) (us : List ℕ) → AreUnused P ss us
    → AreUnused Q ss us
AreUnused-map P Q f [] us h = tt
AreUnused-map P Q f (s ∷ ss) [] h = tt
AreUnused-map P Q f (s ∷ ss) (u ∷ us) h = (λ e. f s (h.0 e), AreUnused-map P Q f ss us h.1)

AreUnused-start :
    (P : Server → Type 0) (ss : List Server) (us : List ℕ) → All P ss → AreUnused P ss us
AreUnused-start P [] us h = tt
AreUnused-start P (s ∷ ss) [] h = tt
AreUnused-start P (s ∷ ss) (u ∷ us) h = (λ e. h.0, AreUnused-start P ss us h.1)

-- The predicate, and another id.
abbrev Besides : List ℕ → (Server → Type 0) → Server → Type 0
Besides key P s = (key ≢ s.id) × P s

AreUnused-others :
    (P : Server → Type 0) (key : List ℕ) (ss : List Server) (us : List ℕ)
    → All (IsOther key) ss
    → AreUnused P ss us
    → AreUnused (Besides key P) ss us
AreUnused-others P key [] us o h = tt
AreUnused-others P key (s ∷ ss) [] o h = tt
AreUnused-others P key (s ∷ ss) (u ∷ us) o h =
    (λ e. (o.0, h.0 e), AreUnused-others P key ss us o.1 h.1)

count_replica-AreUnused :
    (P : Server → Type 0) (key : List ℕ) (ss : List Server) (us : List ℕ)
    → AreServersDistinct ss
    → AreUnused P ss us
    → AreUnused (Besides key P) ss (count_replica key ss us)
unfolding count_replica
count_replica-AreUnused P key [] us d h = tt
count_replica-AreUnused P key (s ∷ ss) [] d h = tt
count_replica-AreUnused P key (s ∷ ss) (u ∷ us) d h = elim (Bool-cases (same_text key s.id)) [
  | inl e ↦
      let same : key ≡ s.id = (same_text_iff key s.id).0 e in
      rw e (
        λ z. absurd (omega (arith, z)),
        AreUnused-others P key ss us (subst (λ k. All (IsOther k) ss) (sym same) d.0) h.1,
      )
  | inr e ↦ rw e (
    λ z. (λ same. cc (e, (same_text_iff key s.id).1 same), h.0 z),
    count_replica-AreUnused P key ss us d.1 h.1,
  )
]

abbrev Unplaced : List Location → (Server → Type 0) → Server → Type 0
Unplaced ls P s = Absent s.id ls × P s

count_usage-AreUnused :
    (P : Server → Type 0) (ls : List Location) (ss : List Server) (us : List ℕ)
    → AreServersDistinct ss
    → AreUnused P ss us
    → AreUnused (Unplaced ls P) ss (count_usage ss ls us)
unfolding count_usage
count_usage-AreUnused P [] ss us d h = AreUnused-map P (Unplaced [] P) (λ s p. (tt, p)) ss us h
count_usage-AreUnused P (l ∷ ls) ss us d h =
    AreUnused-map (Unplaced ls (Besides l.server_id P)) (Unplaced (l ∷ ls) P)
      (λ s p. ((p.1.0, p.0), p.1.1)) ss (count_usage ss ls (count_replica l.server_id ss us))
      (count_usage-AreUnused (Besides l.server_id P) ls ss (count_replica l.server_id ss us) d
        (count_replica-AreUnused P l.server_id ss us d h))

-- The best server after a probe.
probed_holds :
    (P : Server → Type 0) (s : Server) (best : Option Server) (code : ErrorCode) (found : Server)
    → P s
    → ((s' : Server) → best ≡ some s' → P s')
    → (if failed code then best else some s) ≡ some found
    → P found
probed_holds P s best code found p b e = elim (Bool-cases (failed code)) [
  | inl f ↦ b found (ground (arith, f, e))
  | inr f ↦ let same : s ≡ found = ground (arith, f, e) in subst P same p
]

module _ {W : Type 0} (r : Remote W) where
  choose_server_holds :
      (P : Server → Type 0) (ss : List Server) (us : List ℕ) (least : ℕ) (best : Option Server)
      (w : W) (found : Server)
      → AreUnused P ss us
      → ((s : Server) → best ≡ some s → P s)
      → (choose_server r ss us least best w).0 ≡ some found
      → P found
  unfolding choose_server
  choose_server_holds P [] us least best w found h b e = b found e
  choose_server_holds P (s ∷ ss) [] least best w found h b e = b found e
  choose_server_holds P (s ∷ ss) (u ∷ us) least best w found h b e =
      let (code, w') = r.test_connection s w in
      elim (Bool-cases ((u == 0) && ltb u least)) [
        | inl t ↦
            choose_server_holds P ss us (if failed code then least else u)
              (if failed code then best else some s) w' found h.1
              (λ s' q. probed_holds P s best code s' (h.0 (ground (arith, t))) b q)
              (ground (arith, t, e))
        | inr t ↦ choose_server_holds P ss us least best w found h.1 b (ground (arith, t, e))
      ]

  -- The server that is chosen is one of the servers, and has no replica of the chunk, if no two
  -- servers have one id.
  pub select_server_for_replica_holds :
      (P : Server → Type 0) (config : Config) (chunk : Chunk) (w : W) (found : Server)
      → AreServersDistinct (live config)
      → All P (live config)
      → (select_server_for_replica r config chunk w).0 ≡ some found
      → Absent found.id chunk.locations × P found
  unfolding select_server_for_replica
  select_server_for_replica_holds P config chunk w found d h e =
      choose_server_holds (Unplaced chunk.locations P) (live config)
        (count_usage (live config) chunk.locations (replicate max_servers 0)) 2147483647 none w
        found
        (count_usage-AreUnused P chunk.locations (live config) (replicate max_servers 0) d
          (AreUnused-start P (live config) (replicate max_servers 0) h))
        (λ s q. cc) e
