-- ===== src/Libc/Text.antt =====
-- <string.h>, <strings.h> and <ctype.h> in the C locale.
use Prim.Native.String.{String}
use Prim.Native.Char.{code}
use net_chunk.Base.{
  ℕ, ◌+◌, Bool, true, false, ◌&&◌, ◌||◌, Option, none, some, List, [], ◌∷◌, ◌≡◌, refl, ◌↔◌, arith,
  leb, ◌==◌, if◌then◌else◌,
}

-- The characters of an ASCII literal.
abbrev pub codes : String → List ℕ
codes String.[] = []
codes (String.◌∷◌ c s) = code c ∷ codes s

-- `strcmp(s, t) == 0`
unfoldable pub same_text : List ℕ → List ℕ → Bool
same_text [] [] = true
same_text [] (d ∷ t) = false
same_text (c ∷ s) [] = false
same_text (c ∷ s) (d ∷ t) = (c == d) && same_text s t

pub same_text_iff : (s t : List ℕ) → (same_text s t ≡ true) ↔ (s ≡ t)
unfolding same_text
same_text_iff [] [] = (λ h. refl, λ h. refl)
same_text_iff [] (d ∷ t) = (λ h. cc, λ h. cc)
same_text_iff (c ∷ s) [] = (λ h. cc, λ h. cc)
same_text_iff (c ∷ s) (d ∷ t) =
    (λ h. ground (arith, (same_text_iff s t).0), λ h. ground (arith, (same_text_iff s t).1))

pub same_text_refl : (s : List ℕ) → same_text s s ≡ true
same_text_refl s = (same_text_iff s s).1 refl

abbrev pub is_space : ℕ → Bool
is_space c = (c == 32) || (leb 9 c && leb c 13)

abbrev pub to_lower : ℕ → ℕ
to_lower c = if leb b'A' c && leb c b'Z' then c + 32 else c

-- `strcasecmp(s, t) == 0`
unfoldable pub same_text_nocase : List ℕ → List ℕ → Bool
same_text_nocase [] [] = true
same_text_nocase [] (d ∷ t) = false
same_text_nocase (c ∷ s) [] = false
same_text_nocase (c ∷ s) (d ∷ t) = (to_lower c == to_lower d) && same_text_nocase s t

-- `strchr`: what stands before the first `c`, and what behind it.
unfoldable pub split_at_char : ℕ → List ℕ → Option (List ℕ × List ℕ)
split_at_char c [] = none
split_at_char c (d ∷ s) =
    if d == c
    then some ([], s)
    else (elim (split_at_char c s) [ none ↦ none | some (a, b) ↦ some (d ∷ a, b) ])

unfoldable pub skip_spaces : List ℕ → List ℕ
skip_spaces [] = []
skip_spaces (c ∷ s) = if is_space c then skip_spaces s else c ∷ s

-- `strcmp(s, "...") == 0`
abbrev pub is_text : List ℕ → String → Bool
is_text s t = same_text s (codes t)
