-- ===== src/Ansi/Code.antt =====
-- src/ansicolors.rs, `AnsiColors::convert_code`: the four characters of a code as style and colours.
pub mod Result
pub mod Meaning
use havok_rust.Base.{
  ℕ, Bytes, Bool, true, false, ◌&&◌, List, [], ◌∷◌, Option, none, some, Outcome, ok, panic, ◌>>=◌,
  ◌==◌, if◌then◌else◌, nat_eq, list_eq, slice, slice_from, parse_u32, equal,
}
use havok_rust.Base.HashMap.{get}
use havok_rust.Ansi.Libraries.{AnsiTerm, FancyRegex}
use havok_rust.Ansi.Colors.{Styles, eq_styles, ColorMap, AnsiParams, AnsiColors}

abbrev pub unwrap_or {ℓ} : {A : Type ℓ} → Option A → A → A
unwrap_or none d = d
unwrap_or (some a) d = a

abbrev pub unwrap {ℓ} : {A : Type ℓ} → Option A → Outcome A
unwrap none = panic
unwrap (some a) = ok a

abbrev pub or_else {ℓ} : {A : Type ℓ} → Option A → Outcome (Option A) → Outcome (Option A)
or_else none other = other
or_else (some a) other = ok (some a)

-- The styles pushed for the style of the foreground and the style of the code.
unfoldable pub merge_styles : Styles → Styles → List Styles
merge_styles fg_style new_style =
    if eq_styles fg_style Styles.none && eq_styles new_style Styles.bold
    then fg_style ∷ []
    else if eq_styles new_style Styles.none
    then fg_style ∷ []
    else new_style ∷ fg_style ∷ []

module _ (term : AnsiTerm) (re : FancyRegex) (s : AnsiColors term re) where
  unfoldable pub convert_code : Bytes → Outcome (AnsiParams term)
  unfolding slice slice_from parse_u32 get merge_styles
  convert_code code = do
    bg_text ← slice 1 2 code
    let bg_color = unwrap_or (get (unwrap_or (parse_u32 bg_text) 0) s.bg_color_map) term.black
    style_text ← slice 0 1 code
    let style = unwrap_or (get (unwrap_or (parse_u32 style_text) 0) s.style_map) Styles.none
    fg_code ← slice_from 2 code
    fg_item ←
        or_else (get fg_code s.fg_color_map)
          (slice_from 2 s.default_color_code >>= λ default_fg. ok (get default_fg s.fg_color_map))
    fg_color ← unwrap fg_item
    ok (record { style = merge_styles fg_color.style style; bg = bg_color; fg = fg_color.color })
