-- ===== src/Base/Text.antt =====
-- Rust's `String` and `&str` as their UTF-8 bytes: literals, slices by byte index, and `u32::from_str`.
use Prim.Native.Char.{code}
use Prim.Native.String.{String}
use Prim.Native.Nat.{ℕ, ◌+◌, ◌-◌, ◌*◌, ◌^◌}
use mathlib.Core.Bool.{Bool, true, ◌&&◌, ◌||◌}
use mathlib.Core.List.{List, [], ◌∷◌}
use mathlib.Core.Option.{Option, none, some}
use havok_rust.Base.Tests.{leb, ◌==◌, if◌then◌else◌}
use havok_rust.Base.Lists.{length, take, drop}
use havok_rust.Base.Run.{Outcome, ok, panic}

-- The bytes of an ASCII literal.
abbrev pub codes : String → List ℕ
codes String.[] = []
codes (String.◌∷◌ c s) = code c ∷ codes s

-- What stands first behind a boundary: nothing, or a byte that does not continue a character.
abbrev pub starts_char : List ℕ → Bool
starts_char [] = true
starts_char (b ∷ _) = leb (b + 1) 0x80 || leb 0xC0 b

-- `s.is_char_boundary(i)`.
abbrev pub is_char_boundary : ℕ → List ℕ → Bool
is_char_boundary i s = i == 0 || leb i (length s) && starts_char (drop i s)

-- `&s[lo..hi]`: panics if an index is no character boundary, lies behind the text, or `hi < lo`.
unfoldable pub slice : ℕ → ℕ → List ℕ → Outcome (List ℕ)
slice lo hi s =
    if leb lo hi && (is_char_boundary lo s && is_char_boundary hi s)
    then ok (take (hi - lo) (drop lo s))
    else panic

-- `&s[lo..]`.
unfoldable pub slice_from : ℕ → List ℕ → Outcome (List ℕ)
slice_from lo s = if is_char_boundary lo s then ok (drop lo s) else panic

abbrev pub is_digit : ℕ → Bool
is_digit c = leb b'0' c && leb c b'9'

-- The digits of a `u32`; a value of 2 ^ 32 or more is an error.
abbrev pub parse_digits : ℕ → List ℕ → Option ℕ
parse_digits acc [] = some acc
parse_digits acc (c ∷ cs) =
    let value = acc * 10 + (c - b'0') in
    let rest = parse_digits value cs in
    if is_digit c && leb (value + 1) (2 ^ 32) then rest else none

abbrev pub parse_signed : ℕ → List ℕ → Option ℕ
parse_signed c [] = if c == b'+' then none else parse_digits 0 (c ∷ [])
parse_signed c (d ∷ cs) = if c == b'+' then parse_digits 0 (d ∷ cs) else parse_digits 0 (c ∷ d ∷ cs)

-- `s.parse::<u32>()`, an error as `none`. A sign `+` is taken with digits behind it.
unfoldable pub parse_u32 : List ℕ → Option ℕ
parse_u32 [] = none
parse_u32 (c ∷ cs) = parse_signed c cs
