-- ===== src/Ftp/Tests.antt =====
-- Runs of the memory buffer, and the theorems about it at concrete inputs.
use net_chunk.Base.{true, false, [], ◌∷◌, ◌≡◌, refl, arith, success, failed}
use net_chunk.Ftp.Buffer.{Buffer, buffer_resize, buffer_append, grown_capacity, receive}
use net_chunk.Ftp.BufferLaws.{IsBuffer, buffer_append_lem, receive_lem}

abbrev small : Buffer
small = record { bytes = 1 ∷ 2 ∷ []; capacity = 4; position = 0 }

small-IsBuffer : IsBuffer small
small-IsBuffer = record { within = omega arith; small = omega arith }

buffer_append_lem_example :
    let (e, b) = buffer_append small (3 ∷ 4 ∷ 5 ∷ []) true in
    (e ≡ success) × (b.bytes ≡ 1 ∷ 2 ∷ 3 ∷ 4 ∷ 5 ∷ []) × IsBuffer b
buffer_append_lem_example =
    buffer_append_lem small (3 ∷ 4 ∷ 5 ∷ []) small-IsBuffer (omega arith) (omega arith)

fails : failed (buffer_append small (3 ∷ 4 ∷ 5 ∷ []) false).0 ≡ true
unfolding buffer_append buffer_resize grown_capacity
fails = refl

receive_lem_example :
    let (done, b) = receive small ((3 ∷ 4 ∷ 5 ∷ [], true) ∷ (6 ∷ [], true) ∷ []) in
    (done ≡ true) × (b.bytes ≡ 1 ∷ 2 ∷ 3 ∷ 4 ∷ 5 ∷ 6 ∷ []) × IsBuffer b
receive_lem_example =
    receive_lem small ((3 ∷ 4 ∷ 5 ∷ [], true) ∷ (6 ∷ [], true) ∷ []) small-IsBuffer
      ((omega arith, refl), ((omega arith, refl), tt)) (omega arith)
