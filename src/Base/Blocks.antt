-- ===== src/Base/Blocks.antt =====
-- Copies into a C buffer, and lists cut into blocks of one size.
use Prim.Native.Nat.{ℕ, ◌+◌, ◌*◌}
use mathlib.Core.Path.{◌≡◌, refl, sym, ap, ap₂, ◌∙◌}
use mathlib.Core.List.{List, [], ◌∷◌, ◌++◌, append-nil, append_assoc}
use native.Mathlib.Omega.{arith}
use net_chunk.Base.Lists.{
  length, take, drop, concat, All, length-append, take-append, drop-append_add, drop_all,
}

-- `memcpy(buf + pos, bytes, n)`, for a copy that stays inside `buf`.
abbrev pub copy_at : List ℕ → ℕ → List ℕ → List ℕ
copy_at buf pos bytes = take pos buf ++ (bytes ++ drop (pos + length bytes) buf)

pub concat-append {ℓ} :
    {A : Type ℓ} (xss yss : List (List A)) → concat (xss ++ yss) ≡ concat xss ++ concat yss
concat-append [] yss = refl
concat-append (xs ∷ xss) yss =
    ap (λ t. xs ++ t) (concat-append xss yss) ∙ sym (append_assoc xs (concat xss) (concat yss))

abbrev pub IsBlock {ℓ} : {A : Type ℓ} → ℕ → List A → Type 0
IsBlock n xs = length xs ≡ n

pub length-concat {ℓ} :
    {A : Type ℓ} (n : ℕ) (xss : List (List A))
    → All (IsBlock n) xss
    → length (concat xss) ≡ length xss * n
length-concat n [] h = omega arith
length-concat n (xs ∷ xss) h = omega (arith, length-append xs (concat xss), length-concat n xss h.1)

-- A copy behind the first bytes of a buffer.
pub copy_at_end :
    (xs ys bytes : List ℕ) (pos : ℕ)
    → length xs ≡ pos
    → copy_at (xs ++ ys) pos bytes ≡ xs ++ (bytes ++ drop (length bytes) ys)
copy_at_end xs ys bytes pos e =
    ap (λ n. copy_at (xs ++ ys) n bytes) (sym e)
    ∙ ap₂ (λ a b. a ++ (bytes ++ b)) (take-append (length xs) xs ys refl)
        (drop-append_add (length bytes) xs ys)

-- A copy that ends where the buffer ends.
pub copy_at_fill :
    (xs ys bytes : List ℕ) (pos : ℕ)
    → length xs ≡ pos
    → length ys ≡ length bytes
    → copy_at (xs ++ ys) pos bytes ≡ xs ++ bytes
copy_at_fill xs ys bytes pos e h =
    copy_at_end xs ys bytes pos e
    ∙ ap (λ t. xs ++ (bytes ++ t)) (drop_all (length bytes) ys (omega arith))
    ∙ ap (λ t. xs ++ t) (append-nil bytes)
