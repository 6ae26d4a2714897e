-- ===== src/Repair/MoveLaws.antt =====
-- What one move of `netchunk_repair_rebalance_chunks` of src/repair.c leaves of the chunks.
use mathlib.Core.Path.{subst}
use net_chunk.Base.{
  ℕ, zero, suc, ◌<◌, ◌≤◌, false, List, [], ◌∷◌, ◌++◌, ◌≡◌, refl, sym, ap, arith, ltb, length,
  length-append, take_all, inl, inr, Bool-cases, Option-cases, failed,
}
use net_chunk.Base.Int.{pos, ltb_ℤ}
use net_chunk.Libc.Text.{same_text, same_text_iff}
use net_chunk.Chunker.Types.{Location, Chunk, max_chunk_locations}
use net_chunk.Chunker.Table.{Absent, AreDistinct, IsTable}
use net_chunk.Chunker.TableRemove.{append-AreDistinct}
use net_chunk.Config.Types.{Server, Config}
use net_chunk.Ftp.Remote.{Remote}
use net_chunk.Repair.Replicate.{placed}
use net_chunk.Repair.ReplicateLaws.{HasShortId}
use net_chunk.Repair.Rebalance.{
  last_index, is_on_server, remove_at, relocate, move_chunk, move_first,
}

-- A chunk before and behind some moves: only the locations change, none is lost on balance, and
-- the table stays within its bounds and without duplicates.
pub record IsMoved (before after : Chunk) : Type 0 where
  pub same : after ≡ record before { locations = after.locations }
  pub no_fewer : length before.locations ≤ length after.locations
  pub table : IsTable before.locations → IsTable after.locations

pub IsMoved-refl : (c : Chunk) → IsMoved c c
IsMoved-refl c = record { same = refl; no_fewer = omega arith; table = λ t. t }

pub IsMoved-trans : (a b c : Chunk) → IsMoved a b → IsMoved b c → IsMoved a c
IsMoved-trans a b c g h = record {
  same = cc (g.same, h.same);
  no_fewer = omega (arith, g.no_fewer, h.no_fewer);
  table = λ t. h.table (g.table t);
}

abbrev pub AreMoved : List Chunk → List Chunk → Type 0
AreMoved [] [] = Unit
AreMoved [] (d ∷ ds) = ⊥
AreMoved (c ∷ cs) [] = ⊥
AreMoved (c ∷ cs) (d ∷ ds) = IsMoved c d × AreMoved cs ds

pub AreMoved-refl : (cs : List Chunk) → AreMoved cs cs
AreMoved-refl [] = tt
AreMoved-refl (c ∷ cs) = (IsMoved-refl c, AreMoved-refl cs)

pub AreMoved-trans : (xs ys zs : List Chunk) → AreMoved xs ys → AreMoved ys zs → AreMoved xs zs
AreMoved-trans [] [] [] g h = tt
AreMoved-trans [] [] (z ∷ zs) g h = elim h [ ]
AreMoved-trans [] (y ∷ ys) zs g h = elim g [ ]
AreMoved-trans (x ∷ xs) [] zs g h = elim g [ ]
AreMoved-trans (x ∷ xs) (y ∷ ys) [] g h = elim h [ ]
AreMoved-trans (x ∷ xs) (y ∷ ys) (z ∷ zs) g h =
    (IsMoved-trans x y z g.0 h.0, AreMoved-trans xs ys zs g.1 h.1)

pub AreMoved-length : (cs ds : List Chunk) → AreMoved cs ds → length ds ≡ length cs
AreMoved-length [] [] h = refl
AreMoved-length [] (d ∷ ds) h = elim h [ ]
AreMoved-length (c ∷ cs) [] h = elim h [ ]
AreMoved-length (c ∷ cs) (d ∷ ds) h = ap suc (AreMoved-length cs ds h.1)

length-remove_at :
    (j : ℕ) (ls : List Location)
    → (length (remove_at j ls) ≤ length ls) × (length ls ≤ suc (length (remove_at j ls)))
unfolding remove_at
length-remove_at zero [] = omega arith
length-remove_at (suc j) [] = omega arith
length-remove_at zero (l ∷ ls) = omega arith
length-remove_at (suc j) (l ∷ ls) = omega (arith, length-remove_at j ls)

Absent-remove_at :
    (k : List ℕ) (j : ℕ) (ls : List Location) → Absent k ls → Absent k (remove_at j ls)
unfolding remove_at
Absent-remove_at k zero [] h = tt
Absent-remove_at k (suc j) [] h = tt
Absent-remove_at k zero (l ∷ ls) h = h.1
Absent-remove_at k (suc j) (l ∷ ls) h = (h.0, Absent-remove_at k j ls h.1)

AreDistinct-remove_at : (j : ℕ) (ls : List Location) → AreDistinct ls → AreDistinct (remove_at j ls)
unfolding remove_at
AreDistinct-remove_at zero [] h = tt
AreDistinct-remove_at (suc j) [] h = tt
AreDistinct-remove_at zero (l ∷ ls) h = h.1
AreDistinct-remove_at (suc j) (l ∷ ls) h =
    (Absent-remove_at l.server_id j ls h.0, AreDistinct-remove_at j ls h.1)

is_on_server-Absent :
    (key : List ℕ) (ls : List Location) → is_on_server key ls ≡ false → Absent key ls
unfolding is_on_server
is_on_server-Absent key [] h = tt
is_on_server-Absent key (l ∷ ls) h = elim (Bool-cases (same_text l.server_id key)) [
  | inl e ↦ absurd (ground (arith, e, h))
  | inr e ↦ (
    λ same. ground (arith, e, (same_text_iff l.server_id key).1 same),
    is_on_server-Absent key ls (ground (arith, e, h)),
  )
]

module _ {W : Type 0} (r : Remote W) (clock : W → ℕ) (garbage : Location) where
  relocate-IsMoved :
      (config : Config) (from to : Server) (j : ℕ) (chunk : Chunk) (w : W)
      → HasShortId to
      → length chunk.locations < max_chunk_locations
      → Absent to.id chunk.locations
      → IsMoved chunk (relocate r clock garbage config from to j chunk w).0
  unfolding relocate
  relocate-IsMoved config from to j chunk w short room absent =
      let new = placed garbage to (clock w) in
      let grown = chunk.locations ++ (new ∷ []) in
      let size = length-append chunk.locations (new ∷ []) in
      let distinct : AreDistinct chunk.locations → AreDistinct grown =
        append-AreDistinct chunk.locations new
          (subst (λ k. Absent k chunk.locations) (sym (take_all 63 to.id short)) absent) in
      elim (Bool-cases (ltb_ℤ config.replication_factor (pos (length grown)))) [
        | inl e ↦
            rw (relocate, e)
              (record {
                same = refl;
                no_fewer = omega (arith, length-remove_at j grown, size);
                table = λ t. record {
                  room = omega (arith, length-remove_at j grown, size, room);
                  distinct = AreDistinct-remove_at j grown (distinct t.distinct);
                };
              })
        | inr e ↦
            rw (relocate, e)
              (record {
                same = refl;
                no_fewer = omega (arith, size);
                table = λ t. record {
                  room = omega (arith, size, room);
                  distinct = distinct t.distinct;
                };
              })
      ]

  move_chunk-IsMoved :
      (config : Config) (from to : Server) (chunk : Chunk) (w : W)
      → HasShortId to
      → IsMoved chunk (move_chunk r clock garbage config from to chunk w).1.0
  unfolding move_chunk
  move_chunk-IsMoved config from to chunk w short =
      let (code, w1) = r.upload_chunk to chunk w in
      elim (Option-cases (last_index from.id 0 chunk.locations)) [
        | inl e ↦ rw (move_chunk, e) (IsMoved-refl chunk)
        | inr (j, e) ↦ elim (Bool-cases (is_on_server to.id chunk.locations)) [
          | inl on ↦ rw (move_chunk, e, on) (IsMoved-refl chunk)
          | inr off ↦ elim (Bool-cases (ltb (length chunk.locations) max_chunk_locations)) [
            | inr full ↦ rw (move_chunk, e, off, full) (IsMoved-refl chunk)
            | inl room ↦ elim (Bool-cases (failed code)) [
              | inl f ↦ rw (move_chunk, e, off, room, f) (IsMoved-refl chunk)
              | inr f ↦
                  rw (move_chunk, e, off, room, f)
                    (relocate-IsMoved config from to j chunk w1 short (ground arith)
                      (is_on_server-Absent to.id chunk.locations off))
            ]
          ]
        ]
      ]

  pub move_first-AreMoved :
      (config : Config) (from to : Server) (cs : List Chunk) (w : W)
      → HasShortId to
      → AreMoved cs (move_first r clock garbage config from to cs w).1.0
  unfolding move_first
  move_first-AreMoved config from to [] w short = tt
  move_first-AreMoved config from to (c ∷ cs) w short =
      let w1 = (move_chunk r clock garbage config from to c w).1.1 in
      elim (Bool-cases (move_chunk r clock garbage config from to c w).0) [
        | inl e ↦ rw (move_first, e) (move_chunk-IsMoved config from to c w short, AreMoved-refl cs)
        | inr e ↦
            rw (move_first, e)
              (
                move_chunk-IsMoved config from to c w short,
                move_first-AreMoved config from to cs w1 short,
              )
      ]
