-- ===== src/Repair/BalanceLaws.antt =====
-- What `netchunk_repair_rebalance_chunks` of src/repair.c leaves of the chunks.
use mathlib.Core.Path.{subst}
use net_chunk.Base.{
  ℕ, zero, suc, ◌<◌, Option, none, some, List, [], ◌∷◌, ◌≡◌, All, ltb, get_or, inl, inr, ltb→lt,
  Bool-cases, Option-cases,
}
use net_chunk.Chunker.Types.{Location}
use net_chunk.Config.Types.{Server, Config}
use net_chunk.Ftp.Remote.{Remote}
use net_chunk.Repair.Types.{live}
use net_chunk.Repair.ReplicateLaws.{HasShortId}
use net_chunk.Repair.MoveLaws.{AreMoved, AreMoved-refl, AreMoved-trans, move_first-AreMoved}
use net_chunk.Repair.Rebalance.{
  target_count, find_underloaded, Balance, move_first, unloaded, unload, unload_all,
}

-- The predicate holds of the value, if there is one.
abbrev pub IfSome {ℓ} : {A : Type ℓ} → (A → Type 0) → Option A → Type 0
IfSome P none = Unit
IfSome P (some a) = P a

-- The server is below its target, and one of those searched.
abbrev pub IsUnderloaded : (Server → Type 0) → ℕ → ℕ → List ℕ → ℕ × Server → Type 0
IsUnderloaded P average remainder counts (t, to) =
    P to × (get_or counts t 0 < target_count average remainder t)

find_underloaded-IfSome :
    (P : Server → Type 0) (average remainder s : ℕ) (servers : List Server) (counts : List ℕ)
    → All P servers
    → IfSome
        (IsUnderloaded P average remainder counts)
        (find_underloaded average remainder s servers counts)
unfolding find_underloaded
find_underloaded-IfSome P average remainder s [] counts short = tt
find_underloaded-IfSome P average remainder s (x ∷ xs) counts short =
    elim (Bool-cases (ltb (get_or counts s 0) (target_count average remainder s))) [
      | inl e ↦
          rw (find_underloaded, e)
            (short.0, ltb→lt (get_or counts s 0) (target_count average remainder s) e)
      | inr e ↦
          rw (find_underloaded, e)
            (find_underloaded-IfSome P average remainder (suc s) xs counts short.1)
    ]

pub find_underloaded_lem :
    (P : Server → Type 0) (average remainder : ℕ) (servers : List Server) (counts : List ℕ) (t : ℕ)
    (to : Server)
    → All P servers
    → find_underloaded average remainder 0 servers counts ≡ some (t, to)
    → IsUnderloaded P average remainder counts (t, to)
find_underloaded_lem P average remainder servers counts t to short h =
    subst (IfSome (IsUnderloaded P average remainder counts)) h
      (find_underloaded-IfSome P average remainder 0 servers counts short)

pub IfSome-map {ℓ} :
    {A : Type ℓ} {P Q : A → Type 0}
    → ((a : A) → P a → Q a)
    → (o : Option A) → IfSome P o
    → IfSome Q o
IfSome-map f none h = tt
IfSome-map f (some a) h = f a h

module _ {W : Type 0} (r : Remote W) (clock : W → ℕ) (garbage : Location) where
  unload-AreMoved :
      (fuel : ℕ) (config : Config) (average remainder s : ℕ) (from : Server) (b : Balance W)
      → All HasShortId (live config)
      → IfSome
          (λ b'. AreMoved b.chunks b'.chunks)
          (unload r clock garbage fuel config average remainder s from b)
  unfolding unload
  unload-AreMoved zero config average remainder s from b short = tt
  unload-AreMoved (suc fuel) config average remainder s from b short =
      elim (Bool-cases (ltb (target_count average remainder s) (get_or b.counts s 0))) [
        | inr e ↦ rw (unload, e) (AreMoved-refl b.chunks)
        | inl e ↦
            elim (Option-cases (find_underloaded average remainder 0 (live config) b.counts)) [
              | inl u ↦ rw (unload, e, u) (AreMoved-refl b.chunks)
              | inr ((t, to), u) ↦
                  let moved =
                    move_first-AreMoved r clock garbage config from to b.chunks b.world
                      (find_underloaded_lem HasShortId average remainder (live config) b.counts t to
                        short u).0 in
                  elim (Bool-cases (move_first r clock garbage config from to b.chunks b.world).0) [
                    | inr m ↦ rw (unload, e, u, m) moved
                    | inl m ↦
                        let next = unloaded r clock garbage config s from (t, to) b in
                        rw (unload, e, u, m)
                          (IfSome-map
                            (λ b' h. AreMoved-trans b.chunks next.chunks b'.chunks moved h)
                            (unload r clock garbage fuel config average remainder s from next)
                            (unload-AreMoved fuel config average remainder s from next short))
                  ]
            ]
      ]

  pub unload_all-AreMoved :
      (fuel : ℕ) (config : Config) (average remainder s : ℕ) (servers : List Server) (b : Balance W)
      → All HasShortId (live config)
      → IfSome
          (λ b'. AreMoved b.chunks b'.chunks)
          (unload_all r clock garbage fuel config average remainder s servers b)
  unfolding unload_all
  unload_all-AreMoved fuel config average remainder s [] b short = AreMoved-refl b.chunks
  unload_all-AreMoved fuel config average remainder s (from ∷ servers) b short =
      let first = unload-AreMoved fuel config average remainder s from b short in
      elim (Option-cases (unload r clock garbage fuel config average remainder s from b)) [
        | inl e ↦ rw (unload_all, e) tt
        | inr (b1, e) ↦
            rw (unload_all, e)
              (IfSome-map
                (λ b' h.
                  AreMoved-trans b.chunks b1.chunks b'.chunks
                    (subst (IfSome (λ b'. AreMoved b.chunks b'.chunks)) e first) h)
                (unload_all r clock garbage fuel config average remainder (suc s) servers b1)
                (unload_all-AreMoved fuel config average remainder (suc s) servers b1 short))
      ]
