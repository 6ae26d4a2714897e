-- ===== src/Ftp/BufferLaws.antt =====
-- The memory buffer of src/ftp_client.c: its invariant, appends, and the pieces of a transfer.
use net_chunk.Base.{
  ℕ, ◌+◌, ◌^◌, ◌≤◌, ◌<◌, Bool, true, false, List, [], ◌∷◌, ◌++◌, ◌≡◌, refl, sym, ap, ◌∙◌, arith,
  ltb, ◌==◌, u64, length, concat, take_all, length-append, append_assoc, append-nil, Bool-cases,
  inl, inr, All, success, failed,
}
use net_chunk.Ftp.Buffer.{
  Buffer, buffer_resize, grown_capacity, buffer_append, write_callback, receive,
}

-- The invariant: the bytes lie within the capacity, which is a `size_t`.
pub record IsBuffer (b : Buffer) : Type 0 where
  pub within : length b.bytes ≤ b.capacity
  pub small : b.capacity < 2 ^ 64

grown_capacity_bounds :
    (capacity needed : ℕ)
    → needed + 4096 < 2 ^ 64
    → (needed ≤ grown_capacity capacity needed) × (grown_capacity capacity needed < 2 ^ 64)
unfolding grown_capacity
grown_capacity_bounds capacity needed fits = ground arith

-- A buffer with room takes the bytes behind its own.
buffer_resize_room :
    (b : Buffer) (n : ℕ)
    → length b.bytes ≤ n
    → 0 < n
    → buffer_resize b n true ≡ (success, record b { capacity = n })
unfolding buffer_resize
buffer_resize_room b n room pos = rw (take_all n b.bytes room) (ground arith)

-- The buffer with the bytes, in a capacity that holds them.
appended-IsBuffer :
    (b : Buffer) (data_bytes : List ℕ) (n : ℕ)
    → length b.bytes + length data_bytes ≤ n
    → n < 2 ^ 64
    → IsBuffer (record b { bytes = b.bytes ++ data_bytes; capacity = n })
appended-IsBuffer b data_bytes n room small = record {
  within = omega (arith, length-append b.bytes data_bytes, room);
  small = small;
}

-- Appending bytes to a buffer that meets the invariant succeeds where `realloc` does: the bytes
-- stand behind those that were there, and the invariant is kept. The sizes' sum stays 4096 below
-- 2 ^ 64, and there is a byte to append.
pub buffer_append_lem :
    (b : Buffer) (data_bytes : List ℕ)
    → IsBuffer b
    → 0 < length data_bytes
    → length b.bytes + length data_bytes + 4096 < 2 ^ 64
    → let (e, b') = buffer_append b data_bytes true in
      (e ≡ success) × (b'.bytes ≡ b.bytes ++ data_bytes) × IsBuffer b'
unfolding buffer_append
buffer_append_lem b data_bytes buffer some_left fits = rw there (
    rw exact (elim (Bool-cases (ltb b.capacity needed)) [
      | inr room ↦ rw room (
        refl,
        refl,
        appended-IsBuffer b data_bytes b.capacity (ground (arith, room)) buffer.small,
      )
      | inl full ↦ rw full (
          rw
            (buffer_resize_room b (grown_capacity b.capacity needed) (omega (arith, bounds.0))
              (omega (arith, bounds.0, some_left)))
            (
              refl,
              refl,
              appended-IsBuffer b data_bytes (grown_capacity b.capacity needed) bounds.0 bounds.1,
            ))
    ]))
  where
    needed : ℕ
    needed = length b.bytes + length data_bytes

    there : (length data_bytes == 0) ≡ false
    there = ground (arith, some_left)

    exact : u64 (length b.bytes + length data_bytes) ≡ needed
    exact = omega (arith, fits)

    bounds :
        (needed ≤ grown_capacity b.capacity needed) × (grown_capacity b.capacity needed < 2 ^ 64)
    bounds = grown_capacity_bounds b.capacity needed fits

-- An append that fails leaves the buffer as it was.
pub buffer_append_failed :
    (b : Buffer) (data_bytes : List ℕ) (allocated : Bool)
    → failed (buffer_append b data_bytes allocated).0 ≡ true
    → (buffer_append b data_bytes allocated).1 ≡ b
unfolding buffer_append buffer_resize
buffer_append_failed b data_bytes allocated h = ground arith

-- The bytes of the pieces, in order.
abbrev pub pieces_of : List (List ℕ × Bool) → List (List ℕ)
pieces_of [] = []
pieces_of ((piece, allocated) ∷ rest) = piece ∷ pieces_of rest

receive_step :
    (b : Buffer) (piece : List ℕ) (rest : List (List ℕ × Bool))
    → IsBuffer b
    → 0 < length piece
    → length b.bytes + length piece + 4096 < 2 ^ 64
    → receive b ((piece, true) ∷ rest) ≡ receive (buffer_append b piece true).1 rest
unfolding receive write_callback
receive_step b piece rest buffer some_left fits =
    rw (buffer_append_lem b piece buffer some_left fits).0 (ground arith)

-- A transfer into a buffer that meets the invariant, whose pieces are not empty, with every
-- `realloc` granted, is taken to its end, and the buffer holds its own bytes and then the
-- pieces, in order, and meets the invariant. The sizes' sum stays 4096 below 2 ^ 64.
pub receive_lem :
    (b : Buffer) (pieces : List (List ℕ × Bool))
    → IsBuffer b
    → All (λ p. (0 < length p.0) × (p.1 ≡ true)) pieces
    → length b.bytes + length (concat (pieces_of pieces)) + 4096 < 2 ^ 64
    → let (done, b') = receive b pieces in
      (done ≡ true) × (b'.bytes ≡ b.bytes ++ concat (pieces_of pieces)) × IsBuffer b'
unfolding receive
receive_lem b [] buffer all fits = (refl, sym (append-nil b.bytes), buffer)
receive_lem b ((piece, allocated) ∷ rest) buffer all fits =
    let here : length b.bytes + length piece + 4096 < 2 ^ 64 =
      omega (arith, fits, length-append piece (concat (pieces_of rest))) in
    let step = buffer_append_lem b piece buffer all.0.0 here in
    let b' = (buffer_append b piece true).1 in
    let left : length b'.bytes + length (concat (pieces_of rest)) + 4096 < 2 ^ 64 = rw step.1 (
      omega (
        arith,
        fits,
        length-append b.bytes piece,
        length-append piece (concat (pieces_of rest)),
      )) in
    let later = receive_lem b' rest step.2 all.1 left in
    rw all.0.1 (
      rw (receive_step b piece rest buffer all.0.0 here) (
        later.0,
        later.1
            ∙ ap (λ t. t ++ concat (pieces_of rest)) step.1
            ∙ append_assoc b.bytes piece (concat (pieces_of rest)),
        later.2,
      ))
