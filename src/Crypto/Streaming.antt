-- ===== src/Crypto/Streaming.antt =====
-- The contexts of the streaming interface, and the bytes that each one stands for.
use net_chunk.Base.{
  ℕ, zero, suc, ◌+◌, ◌-◌, ◌%◌, ◌^◌, ◌≤◌, ◌<◌, List, [], ◌∷◌, ◌++◌, ◌≡◌, refl, sym, ap, ap₂, ◌∙◌,
  arith, length, take, drop, replicate, concat, All, IsBlock, foldl, leb, ◌==◌, false, Bool-cases,
  inl, inr, copy_at, length-append, take-append-drop, length-take, length-drop, u64,
  length-replicate, All-append, concat-append, length-concat, copy_at_end, copy_at_fill, append-nil,
  append_assoc,
}
use mathlib.Core.List.{foldl-append}
use net_chunk.Crypto.Compress.{HashState, transform}
use net_chunk.Crypto.Context.{Sha256, initial_state, absorb, init, fill_buffer, update}

-- What the loop over complete blocks has done.
record IsAbsorbed (s : HashState) (input : List ℕ) (result : HashState × List ℕ) : Type 0 where
  blocks : List (List ℕ)
  aligned : All (IsBlock 64) blocks
  split : input ≡ concat blocks ++ result.1
  short : length result.1 < 64
  hashed : result.0 ≡ foldl transform s blocks

absorb-IsAbsorbed :
    (fuel : ℕ) (s : HashState) (input : List ℕ)
    → length input ≤ fuel
    → IsAbsorbed s input (absorb fuel s input)
unfolding absorb
absorb-IsAbsorbed zero s input h = record {
  blocks = [];
  aligned = tt;
  split = refl;
  short = omega arith;
  hashed = refl;
}
absorb-IsAbsorbed (suc fuel) s input h = elim (Bool-cases (leb 64 (length input))) [
  | inr small ↦
      rw small
        (record { blocks = []; aligned = tt; split = refl; short = ground arith; hashed = refl })
  | inl large ↦
      let first = take 64 input in
      let ih =
        absorb-IsAbsorbed fuel (transform s first) (drop 64 input)
          (ground (arith, length-drop 64 input)) in
      rw large (record {
        blocks = first ∷ ih.blocks;
        aligned = (ground (arith, length-take 64 input), ih.aligned);
        split =
            sym (take-append-drop 64 input)
            ∙ ap (λ t. first ++ t) ih.split
            ∙ sym (
                append_assoc first (concat ih.blocks)
                  (absorb fuel (transform s first) (drop 64 input)).1);
        short = ih.short;
        hashed = ih.hashed;
      })
]

-- The context has been given the bytes of `m`, and no others.
pub record Represents (ctx : Sha256) (m : List ℕ) : Type 0 where
  pub blocks : List (List ℕ)
  pub rest : List ℕ
  pub spare : List ℕ
  pub aligned : All (IsBlock 64) blocks
  pub split : m ≡ concat blocks ++ rest
  pub hashed : ctx.state ≡ foldl transform initial_state blocks
  pub held : ctx.buffer ≡ rest ++ spare
  pub counted : ctx.count ≡ length m
  pub room : length rest + length spare ≡ 64
  pub short : length rest < 64

pub length-rest : {ctx : Sha256} {m : List ℕ} (r : Represents ctx m) → length r.rest ≡ length m % 64
length-rest r = omega (
  arith,
  ap length r.split,
  length-append (concat r.blocks) r.rest,
  length-concat 64 r.blocks r.aligned,
  r.short,
)

-- One more block, and the input behind it, after the pending bytes.
regroup :
    (done rest more input left : List ℕ)
    → input ≡ more ++ left
    → (m bytes lead : List ℕ) → m ≡ done ++ rest
    → bytes ≡ lead ++ input
    → m ++ bytes ≡ (done ++ ((rest ++ lead) ++ more)) ++ left
regroup done rest more input left e m bytes lead f g = rw (f, g, e) (simp append_assoc)

module _ (ctx : Sha256) (m bytes : List ℕ) (r : Represents ctx m) where
  length-pos : length r.rest ≡ ctx.count % 64
  length-pos = omega (arith, length-rest r, r.counted)

  -- The input does not fill the buffer.
  append-Represents :
      length bytes < 64 - ctx.count % 64
      → Represents
          (record {
            state = ctx.state;
            count = ctx.count + length bytes;
            buffer = copy_at ctx.buffer (64 - (64 - ctx.count % 64)) bytes;
          })
          (m ++ bytes)
  append-Represents h = record {
    blocks = r.blocks;
    rest = r.rest ++ bytes;
    spare = drop (length bytes) r.spare;
    aligned = r.aligned;
    split = ap (λ t. t ++ bytes) r.split ∙ append_assoc (concat r.blocks) r.rest bytes;
    hashed = r.hashed;
    held =
        ap (λ t. copy_at t (64 - (64 - ctx.count % 64)) bytes) r.held
        ∙ copy_at_end r.rest r.spare bytes _ (omega (arith, length-pos))
        ∙ sym (append_assoc r.rest bytes (drop (length bytes) r.spare));
    counted = omega (arith, length-append m bytes, r.counted);
    room =
        omega (
          arith,
          length-append r.rest bytes,
          length-drop (length bytes) r.spare,
          length-pos,
          r.room,
        );
    short = omega (arith, length-append r.rest bytes, length-pos);
  }

  -- The input fills the buffer: one block of pending bytes and input, then the loop.
  fill-Represents :
      64 - ctx.count % 64 ≤ length bytes
      → Represents
          (fill_buffer
            (record ctx { count = ctx.count + length bytes })
            (64 - ctx.count % 64)
            bytes)
          (m ++ bytes)
  unfolding fill_buffer
  fill-Represents h = record {
    blocks = r.blocks ++ (first ∷ loop.blocks);
    rest = left;
    spare = drop (length left) full;
    aligned =
        All-append (IsBlock 64) r.blocks (first ∷ loop.blocks) r.aligned
          (first_length, loop.aligned);
    split =
        regroup (concat r.blocks) r.rest (concat loop.blocks) input left loop.split m bytes lead
          r.split (sym (take-append-drop space bytes))
        ∙ ap (λ t. t ++ left) (sym (concat-append r.blocks (first ∷ loop.blocks)));
    hashed =
        loop.hashed
        ∙ ap₂ (λ s b. foldl transform (transform s b) loop.blocks) r.hashed full_first
        ∙ sym (foldl-append transform initial_state r.blocks (first ∷ loop.blocks));
    held = copy_at_end [] full left 0 refl;
    counted = omega (arith, length-append m bytes, r.counted);
    room =
        omega
          (arith, length-drop (length left) full, ap length full_first, first_length, loop.short);
    short = loop.short;
  }
    where
      space : ℕ
      space = 64 - ctx.count % 64

      lead : List ℕ
      lead = take space bytes

      input : List ℕ
      input = drop space bytes

      full : List ℕ
      full = copy_at ctx.buffer (64 - space) lead

      first : List ℕ
      first = r.rest ++ lead

      lead_length : length lead ≡ space
      lead_length = omega (arith, length-take space bytes, h)

      first_length : length first ≡ 64
      first_length = omega (arith, length-append r.rest lead, lead_length, length-pos)

      full_first : full ≡ first
      full_first =
          ap (λ t. copy_at t (64 - space) lead) r.held
          ∙ copy_at_fill r.rest r.spare lead (64 - space) (omega (arith, length-pos))
              (omega (arith, lead_length, length-pos, r.room))

      left : List ℕ
      left = (absorb (length input) (transform ctx.state full) input).1

      loop :
          IsAbsorbed
            (transform ctx.state full)
            input
            (absorb (length input) (transform ctx.state full) input)
      loop = absorb-IsAbsorbed (length input) (transform ctx.state full) input (omega arith)

pub init-Represents : Represents init []
unfolding init
init-Represents = record {
  blocks = [];
  rest = [];
  spare = replicate 64 0;
  aligned = tt;
  split = refl;
  hashed = refl;
  held = refl;
  counted = refl;
  room = omega (arith, length-replicate {A = ℕ} 64 0);
  short = omega arith;
}

-- An update of a context that stands for a message leaves one that stands for the message with
-- the bytes behind it, if they have less than 2 ^ 64 bytes together.
pub update-Represents :
    (ctx : Sha256) (m bytes : List ℕ)
    → length m + length bytes < 2 ^ 64
    → Represents ctx m
    → Represents (update ctx bytes) (m ++ bytes)
unfolding update
update-Represents ctx m [] fits r = rw (append-nil m) r
update-Represents ctx m (x ∷ xs) fits r =
    let bytes = x ∷ xs in
    let no_wrap : u64 (ctx.count + length bytes) ≡ ctx.count + length bytes =
      omega (arith, fits, r.counted) in
    let nonempty : (length bytes == 0) ≡ false = ground arith in
    elim (Bool-cases (leb (64 - ctx.count % 64) (length bytes))) [
      | inl large ↦ rw (nonempty, large, no_wrap) (fill-Represents ctx m bytes r (ground arith))
      | inr small ↦ rw (nonempty, small, no_wrap) (append-Represents ctx m bytes r (ground arith))
    ]
