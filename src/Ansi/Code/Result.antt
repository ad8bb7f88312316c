-- ===== src/Ansi/Code/Result.antt =====
-- What `convert_code` makes of a code, once the tables are filled.
use havok_rust.Base.{
  ℕ, ◌≤◌, ◌<◌, ◌≡◌, refl, sym, ◌∙◌, ◌⊎◌, Bytes, codes, [], ◌∷◌, Option, none, some, Outcome, ok,
  panic, ◌>>=◌, slice, slice_from, parse_u32, arith, nat_eq, list_eq,
}
use havok_rust.Base.HashMap.{get}
use havok_rust.Ansi.Libraries.{AnsiTerm, FancyRegex}
use havok_rust.Ansi.Colors.{
  Styles, ColorMap, AnsiParams, filled, fg_colors, bg_colors, style_table, plain,
}
use havok_rust.Ansi.Code.{unwrap_or, unwrap, or_else, merge_styles, convert_code}

-- The number that a byte of the code stands for: a digit's value, and 0 for any other byte.
abbrev pub index_of : ℕ → ℕ
index_of c = unwrap_or (parse_u32 (c ∷ [])) 0

abbrev pub IsAscii : ℕ → Type 0
IsAscii c = c < 0x80

-- The bytes begin a character, or there are none.
abbrev pub Starts : Bytes → Type 0
Starts [] = Unit
Starts (c ∷ cs) = IsAscii c ⊎ (0xC0 ≤ c)

slice_bg : (a b : ℕ) (cs : Bytes) → IsAscii b → Starts cs → slice 1 2 (a ∷ b ∷ cs) ≡ ok (b ∷ [])
unfolding slice
slice_bg a b [] h k = ground arith
slice_bg a b (c ∷ cs) h k = ground arith

slice_style : (a b : ℕ) (cs : Bytes) → IsAscii b → slice 0 1 (a ∷ b ∷ cs) ≡ ok (a ∷ [])
unfolding slice
slice_style a b cs h = ground arith

slice_fg : (a b : ℕ) (cs : Bytes) → Starts cs → slice_from 2 (a ∷ b ∷ cs) ≡ ok cs
unfolding slice_from
slice_fg a b [] k = ground arith
slice_fg a b (c ∷ cs) k = ground arith

inside_char : (a b : ℕ) (cs : Bytes) → 0x80 ≤ b → b < 0xC0 → slice 1 2 (a ∷ b ∷ cs) ≡ panic
unfolding slice
inside_char a b cs lo hi = ground arith

module _ (term : AnsiTerm) (re : FancyRegex) (regex : re.Regex) where
  -- The foreground entry of the last characters, white if there is none.
  abbrev pub fg_at : Bytes → ColorMap term
  fg_at cs = unwrap_or (get cs (fg_colors term)) (plain term term.white)

  abbrev pub style_at : ℕ → Styles
  style_at c = unwrap_or (get (index_of c) style_table) Styles.none

  abbrev pub bg_at : ℕ → term.Color
  bg_at c = unwrap_or (get (index_of c) (bg_colors term)) term.black

  default_found : get (codes "07") (fg_colors term) ≡ some (plain term term.white)
  unfolding get fg_colors
  default_found = refl

  found_or_default :
      (o : Option (ColorMap term)) (k : ColorMap term → Outcome (AnsiParams term))
      → (or_else o (ok (get (codes "07") (fg_colors term))) >>= λ fg_item.
          unwrap fg_item >>= λ fg_color. k fg_color)
        ≡ k (unwrap_or o (plain term term.white))
  found_or_default none k = rw default_found
  found_or_default (some item) k = refl

  -- With the tables filled, a code of two ASCII characters and a rest never panics. The first character
  -- gives a style, the second a background, the rest a foreground and a style: an unknown first or second
  -- character counts as 0, a digit outside its table as no style or black, and an unknown rest as white.
  pub convert_code_lem :
      (a b : ℕ) (cs : Bytes)
      → IsAscii b
      → Starts cs
      → convert_code term re (filled term re regex) (a ∷ b ∷ cs)
        ≡ ok (record {
          style = merge_styles (fg_at cs).style (style_at a);
          bg = bg_at b;
          fg = (fg_at cs).color;
        })
  unfolding convert_code
  convert_code_lem a b cs h k =
      rw (slice_bg a b cs h k, slice_style a b cs h, slice_fg a b cs k)
        (found_or_default (get cs (fg_colors term)) (λ fg_color. ok (record {
          style = merge_styles fg_color.style (style_at a);
          bg = bg_at b;
          fg = fg_color.color;
        })))

  style_at_0 : style_at b'0' ≡ Styles.none
  unfolding get style_table parse_u32
  style_at_0 = refl

  style_at_1 : style_at b'1' ≡ Styles.bold
  unfolding get style_table parse_u32
  style_at_1 = refl

  merge_bold :
      (fg_style : Styles)
      → fg_style ≡ Styles.none
      → merge_styles fg_style Styles.bold ≡ merge_styles fg_style Styles.none
  unfolding merge_styles
  merge_bold fg_style e = rw e

  -- Before a foreground that is not bright the style digit 1, bold, has no effect: the code means the same
  -- as with the style digit 0.
  pub convert_code_bold :
      (b : ℕ) (cs : Bytes)
      → IsAscii b
      → Starts cs
      → (fg_at cs).style ≡ Styles.none
      → convert_code term re (filled term re regex) (b'1' ∷ b ∷ cs)
        ≡ convert_code term re (filled term re regex) (b'0' ∷ b ∷ cs)
  unfolding get style_table parse_u32
  convert_code_bold b cs h k e =
      convert_code_lem b'1' b cs h k
      ∙ rw (style_at_1, merge_bold (fg_at cs).style e, ← style_at_0)
          (sym (convert_code_lem b'0' b cs h k))

  -- A code whose second byte continues a character, as after a digit that is not ASCII, panics.
  pub convert_code_panic :
      (a b : ℕ) (cs : Bytes)
      → 0x80 ≤ b
      → b < 0xC0
      → convert_code term re (filled term re regex) (a ∷ b ∷ cs) ≡ panic
  unfolding convert_code
  convert_code_panic a b cs lo hi = rw (inside_char a b cs lo hi)
