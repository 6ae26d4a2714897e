-- ===== src/Config/Values.antt =====
-- The values of src/config.c: `trim_whitespace`, `parse_bool`, `parse_int`, `parse_size`, and the
-- casts of a `long`.
use net_chunk.Base.{ℕ, ◌-◌, ◌*◌, ◌%◌, ◌^◌, Bool, ◌||◌, List, [], ◌∷◌, ltb, u64, if◌then◌else◌}
use net_chunk.Base.Int.{ℤ, pos, negsuc, sub_ℕ}
use net_chunk.Libc.Text.{codes, is_space, skip_spaces, same_text_nocase}
use net_chunk.Libc.Number.{strtol, strtoul}

-- A character before what is left behind it.
abbrev pub keep_before : ℕ → List ℕ → List ℕ
keep_before c [] = if is_space c then [] else c ∷ []
keep_before c (d ∷ s) = c ∷ d ∷ s

-- The white space at the end dropped.
unfoldable pub drop_spaces_end : List ℕ → List ℕ
drop_spaces_end [] = []
drop_spaces_end (c ∷ s) = keep_before c (drop_spaces_end s)

-- The second loop stops at the first character.
abbrev pub trim_end : List ℕ → List ℕ
trim_end [] = []
trim_end (c ∷ s) = c ∷ drop_spaces_end s

unfoldable pub trim_whitespace : List ℕ → List ℕ
trim_whitespace s = trim_end (skip_spaces s)

unfoldable pub parse_bool : List ℕ → Bool
parse_bool value =
    same_text_nocase value (codes "true")
    || (same_text_nocase value (codes "yes")
        || (same_text_nocase value (codes "1") || same_text_nocase value (codes "on")))

abbrev pub if_at_end : List ℕ → ℤ → ℤ
if_at_end [] n = n
if_at_end (c ∷ rest) n = pos 0

unfoldable pub parse_int : List ℕ → ℤ
parse_int value = let (n, rest) = strtol 10 value in if_at_end rest n

-- The number with its suffix.
abbrev pub scaled : ℕ → List ℕ → ℕ
scaled n [] = n
scaled n (c ∷ s) =
    if same_text_nocase (c ∷ s) (codes "KB") || same_text_nocase (c ∷ s) (codes "K")
    then u64 (n * 1024)
    else if same_text_nocase (c ∷ s) (codes "MB") || same_text_nocase (c ∷ s) (codes "M")
    then u64 (n * 1048576)
    else if same_text_nocase (c ∷ s) (codes "GB") || same_text_nocase (c ∷ s) (codes "G")
    then u64 (n * 1073741824)
    else 0

unfoldable pub parse_size : List ℕ → ℕ
parse_size value = let (n, rest) = strtoul 10 value in scaled n rest

-- An integer modulo 2 ^ `w`.
abbrev pub wrap : ℕ → ℤ → ℕ
wrap w (pos n) = n % 2 ^ w
wrap w (negsuc n) = 2 ^ w - 1 - n % 2 ^ w

-- `(int)` and `(uint16_t)` of a `long`.
unfoldable pub to_int : ℤ → ℤ
to_int n = if ltb (wrap 32 n) (2 ^ 31) then pos (wrap 32 n) else sub_ℕ (wrap 32 n) (2 ^ 32)

unfoldable pub to_uint16 : ℤ → ℕ
to_uint16 n = wrap 16 n
