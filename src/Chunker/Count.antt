-- ===== src/Chunker/Count.antt =====
-- `netchunk_calculate_chunk_count` of src/chunker.c.
use net_chunk.Base.{
  ℕ, zero, suc, ◌+◌, ◌-◌, ◌*◌, ◌/◌, ◌^◌, ◌≤◌, ◌<◌, ◌||◌, false, ◌≡◌, ap, ◌∙◌, arith, ◌==◌,
  if◌then◌else◌, u32, u64,
}
use native.Mathlib.Nat.{mod-eq_of_lt, mod-lt, div-add-mod', div-lt_iff_lt-mul}

unfoldable pub calculate_chunk_count : ℕ → ℕ → ℕ
calculate_chunk_count file_size target_chunk_size =
    if (file_size == 0) || (target_chunk_size == 0)
    then 0
    else u32 (u64 (u64 (file_size + target_chunk_size) + 2 ^ 64 - 1) / target_chunk_size)

-- Within these bounds neither the sum nor the cast wraps.
calculate_chunk_count-div :
    (size target : ℕ)
    → 0 < size
    → 0 < target
    → size + target ≤ 2 ^ 64
    → size ≤ target * (2 ^ 32 - 1)
    → calculate_chunk_count size target ≡ (size + target - 1) / target
unfolding calculate_chunk_count
calculate_chunk_count-div size target s t fits small = rw nonzero narrow
  where
    nonzero : ((size == 0) || (target == 0)) ≡ false
    nonzero = ground arith

    no_wrap : u64 (u64 (size + target) + 2 ^ 64 - 1) ≡ size + target - 1
    no_wrap = omega arith

    below : (size + target - 1) / target < 2 ^ 32
    below = (div-lt_iff_lt-mul t).1 (omega (arith, small))

    narrow : u32 (u64 (u64 (size + target) + 2 ^ 64 - 1) / target) ≡ (size + target - 1) / target
    narrow = ap (λ n. u32 (n / target)) no_wrap ∙ mod-eq_of_lt below

-- So many chunks hold the file, and one fewer do not, for a chunk size that is not 0. The sizes
-- of the file and of a chunk add up to at most 2 ^ 64, and the file has at most 2 ^ 32 - 1
-- chunks.
pub calculate_chunk_count_lem :
    (size target : ℕ)
    → 0 < target
    → size + target ≤ 2 ^ 64
    → size ≤ target * (2 ^ 32 - 1)
    → (size ≤ calculate_chunk_count size target * target)
      × (calculate_chunk_count size target * target < size + target)
calculate_chunk_count_lem zero target t fits small =
    (omega arith, unfold calculate_chunk_count in omega (arith, t))
calculate_chunk_count_lem (suc size) target t fits small =
    rw (calculate_chunk_count-div (suc size) target (omega arith) t fits small) (
      omega (arith, div-add-mod' (suc size + target - 1) target, mod-lt (suc size + target - 1) t),
      omega (arith, div-add-mod' (suc size + target - 1) target, t),
    )

pub calculate_chunk_count-lt : (size target : ℕ) → calculate_chunk_count size target < 2 ^ 32
unfolding calculate_chunk_count
calculate_chunk_count-lt size target = ground arith
