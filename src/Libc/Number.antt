-- ===== src/Libc/Number.antt =====
-- `strtoul` and `strtol` of <stdlib.h>, on the 64-bit `unsigned long` and `long` of the program.
use net_chunk.Base.{
  ℕ, ◌+◌, ◌-◌, ◌*◌, ◌%◌, ◌^◌, Bool, true, false, ◌&&◌, ◌||◌, Option, none, some, List, [], ◌∷◌, ltb,
  leb, ◌==◌, if◌then◌else◌,
}
use net_chunk.Base.Int.{ℤ, pos, sub_ℕ}
use net_chunk.Libc.Text.{skip_spaces}

-- The value of a letter or digit, in any base.
abbrev pub char_value : ℕ → Option ℕ
char_value c =
    if leb b'0' c && leb c b'9'
    then some (c - b'0')
    else if leb b'a' c && leb c b'z'
    then some (c - b'a' + 10)
    else if leb b'A' c && leb c b'Z'
    then some (c - b'A' + 10)
    else none

abbrev pub digit_value : ℕ → ℕ → Option ℕ
digit_value base c = elim (char_value c) [
  | none ↦ none
  | some v ↦ if ltb v base then some v else none
]

-- The digits at the front: their value, whether there was one, and the rest.
unfoldable pub scan_digits : ℕ → ℕ → Bool → List ℕ → ℕ × Bool × List ℕ
scan_digits base acc seen [] = (acc, seen, [])
scan_digits base acc seen (c ∷ s) = elim (digit_value base c) [
  | none ↦ (acc, seen, c ∷ s)
  | some v ↦ scan_digits base (acc * base + v) true s
]

-- The sign at the front: whether it is a minus, and the rest.
abbrev pub scan_sign : List ℕ → Bool × List ℕ
scan_sign [] = (false, [])
scan_sign (c ∷ s) =
    if c == b'-' then (true, s) else if c == b'+' then (false, s) else (false, c ∷ s)

-- In base 16 a `0x` is passed over, if a digit follows it.
abbrev pub skip_prefix : ℕ → List ℕ → List ℕ
skip_prefix base (c ∷ x ∷ d ∷ s) =
    if (base == 16) && ((c == b'0') && ((x == b'x') || (x == b'X')))
    then (elim (digit_value base d) [ none ↦ c ∷ x ∷ d ∷ s | some v ↦ d ∷ s ])
    else c ∷ x ∷ d ∷ s
skip_prefix base s = s

-- What both functions read: whether a minus stood there, the digits' value, and `*endptr`, which
-- is the whole text where there was no digit.
pub record Scan : Type 0 where
  pub negative : Bool
  pub value : ℕ
  pub rest : List ℕ

unfoldable pub scan_number : ℕ → List ℕ → Scan
unfolding skip_spaces scan_digits
scan_number base s =
    let (negative, signed) = scan_sign (skip_spaces s) in
    let (value, seen, rest) = scan_digits base 0 false (skip_prefix base signed) in
    if seen
    then record { negative = negative; value = value; rest = rest }
    else record { negative = false; value = 0; rest = s }

-- A value past ULONG_MAX gives ULONG_MAX; a minus negates modulo 2 ^ 64.
unfoldable pub strtoul : ℕ → List ℕ → ℕ × List ℕ
unfolding scan_number
strtoul base s =
    let r = scan_number base s in
    (
      if leb (2 ^ 64) r.value
          then 2 ^ 64 - 1
          else if r.negative
          then (2 ^ 64 - r.value) % 2 ^ 64
          else r.value,
      r.rest,
    )

-- A value outside of the range of `long` gives its nearest end.
unfoldable pub strtol : ℕ → List ℕ → ℤ × List ℕ
unfolding scan_number
strtol base s =
    let r = scan_number base s in
    (
      if r.negative
          then (if leb r.value (2 ^ 63) then sub_ℕ 0 r.value else sub_ℕ 0 (2 ^ 63))
          else pos (if ltb r.value (2 ^ 63) then r.value else 2 ^ 63 - 1),
      r.rest,
    )
