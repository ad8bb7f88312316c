-- ===== src/Ansi/Code/Meaning.antt =====
-- What the codes of one style digit, one background digit and a foreground mean, without the tables.
use havok_rust.Base.{
  ℕ, zero, suc, ◌+◌, ◌-◌, ◌<◌, ◌≡◌, ◌∙◌, refl, ap, Bytes, codes, Bool, true, false, List, [], ◌∷◌,
  ok, inl, if◌then◌else◌, leb, arith, nat_eq, list_eq, parse_u32, Bool-cases, inr,
}
use havok_rust.Base.HashMap.{get}
use havok_rust.Ansi.Libraries.{AnsiTerm, FancyRegex}
use havok_rust.Ansi.Colors.{
  Styles, none, bold, faint, italic, underline, blink, negative, filled, fg_colors, bg_colors,
  style_table,
}
use havok_rust.Ansi.Code.{merge_styles, convert_code}
use havok_rust.Ansi.Code.Result.{Starts, fg_at, style_at, bg_at, convert_code_lem}

-- The decimal digit, as a character.
abbrev pub digit : ℕ → ℕ
digit n = b'0' + n

-- The entry of a list at a number, and what is taken behind its end.
abbrev pub entry {ℓ} : {A : Type ℓ} → A → List A → ℕ → A
entry other [] n = other
entry other (a ∷ rest) zero = a
entry other (a ∷ rest) (suc n) = entry other rest n

-- The sixteen foregrounds by letter: dark first, then bright.
abbrev pub letters : Bytes
letters = codes "XrgybpcwxRGYBPCW"

-- A foreground: by its letter behind a zero, or by its number, in two digits.
abbrev pub spelled : Bool → ℕ → Bytes
spelled true n = b'0' ∷ (entry b'W' letters n ∷ [])
spelled false n = if leb 10 n then b'1' ∷ (digit (n - 10) ∷ []) else b'0' ∷ (digit n ∷ [])

-- The styles of a style digit before a foreground, which is bright or not. Bold is lost before one that is
-- not.
abbrev pub code_styles : Bool → ℕ → List Styles
code_styles false = entry (none ∷ []) (
    (none ∷ [])
    ∷ (none ∷ [])
    ∷ (faint ∷ none ∷ [])
    ∷ (italic ∷ none ∷ [])
    ∷ (underline ∷ none ∷ [])
    ∷ (blink ∷ none ∷ [])
    ∷ (negative ∷ none ∷ [])
    ∷ [])
code_styles true = entry (bold ∷ []) (
    (bold ∷ [])
    ∷ (bold ∷ bold ∷ [])
    ∷ (faint ∷ bold ∷ [])
    ∷ (italic ∷ bold ∷ [])
    ∷ (underline ∷ bold ∷ [])
    ∷ (blink ∷ bold ∷ [])
    ∷ (negative ∷ bold ∷ [])
    ∷ [])

-- The property of all numbers below a bound.
abbrev pub Below : (ℕ → Type 0) → ℕ → Type 0
Below P zero = Unit
Below P (suc n) = P n × Below P n

pub at-Below : (P : ℕ → Type 0) (n m : ℕ) → Below P n → m < n → P m
at-Below P zero m all h = absurd (omega (arith, h))
at-Below P (suc n) m (last, all) h = elim (Bool-cases (leb n m)) [
  | inr less ↦ at-Below P n m all (ground arith)
  | inl not_less ↦ let same : n ≡ m = ground arith in rw (← same) last
]

spelled-Starts : (by_letter : Bool) (n : ℕ) → n < 16 → Starts (spelled by_letter n)
spelled-Starts true n h = inl (omega arith)
spelled-Starts false n h = ground (arith, h)

module _ (term : AnsiTerm) where
  -- The eight colours; what is not below eight is black.
  abbrev pub color_of : ℕ → term.Color
  color_of = entry term.black (
      term.black ∷ term.red ∷ term.green ∷ term.yellow ∷ term.blue ∷ term.purple ∷ term.cyan
      ∷ term.white ∷ [])

  -- The foreground: a bright one has the colour of the eighth before it.
  abbrev pub fg_of : ℕ → term.Color
  fg_of n = if leb 8 n then color_of (n - 8) else color_of n

module _ (term : AnsiTerm) (re : FancyRegex) (regex : re.Regex) where
  abbrev IsForeground : Bool → ℕ → Type 0
  IsForeground by_letter n =
      fg_at term re regex (spelled by_letter n)
      ≡ record { style = if leb 8 n then bold else none; color = fg_of term n }

  foregrounds : (by_letter : Bool) → Below (IsForeground by_letter) 16
  unfolding get fg_colors
  foregrounds true = (
    refl,
    (
      refl,
      (
        refl,
        (
          refl,
          (
            refl,
            (
              refl,
              (refl, (refl, (refl, (refl, (refl, (refl, (refl, (refl, (refl, (refl, tt)))))))))),
            ),
          ),
        ),
      ),
    ),
  )
  foregrounds false = (
    refl,
    (
      refl,
      (
        refl,
        (
          refl,
          (
            refl,
            (
              refl,
              (refl, (refl, (refl, (refl, (refl, (refl, (refl, (refl, (refl, (refl, tt)))))))))),
            ),
          ),
        ),
      ),
    ),
  )

  abbrev IsBackground : ℕ → Type 0
  IsBackground b = bg_at term re regex (digit b) ≡ color_of term b

  backgrounds : Below IsBackground 10
  unfolding get bg_colors parse_u32
  backgrounds = (refl, (refl, (refl, (refl, (refl, (refl, (refl, (refl, (refl, (refl, tt))))))))))

  abbrev IsStyle : Bool → ℕ → Type 0
  IsStyle is_bright a =
      merge_styles (if is_bright then bold else none) (style_at term re regex (digit a))
      ≡ code_styles is_bright a

  styled : (is_bright : Bool) → Below (IsStyle is_bright) 10
  unfolding get style_table parse_u32 merge_styles
  styled true = (refl, (refl, (refl, (refl, (refl, (refl, (refl, (refl, (refl, (refl, tt))))))))))
  styled false = (refl, (refl, (refl, (refl, (refl, (refl, (refl, (refl, (refl, (refl, tt))))))))))

  -- A code of a style digit, a background digit and one of the sixteen foregrounds, by its letter or its
  -- number, does not panic. Its foreground is one of the eight colours, bold for the upper eight numbers.
  -- Its background is the colour of its digit, black for 8 and 9. The style of its digit, none for 0 and from
  -- 7 on, stands before that of the foreground, except that bold is lost before a foreground that is not
  -- bright.
  pub convert_code_means :
      (a b n : ℕ) (by_letter : Bool)
      → a < 10
      → b < 10
      → n < 16
      → convert_code term re (filled term re regex) (digit a ∷ digit b ∷ spelled by_letter n)
        ≡ ok (record { style = code_styles (leb 8 n) a; bg = color_of term b; fg = fg_of term n })
  convert_code_means a b n by_letter style_digit bg_digit fg_number =
      let fg = at-Below (IsForeground by_letter) 16 n (foregrounds by_letter) fg_number in
      let bg : IsBackground b = at-Below IsBackground 10 b backgrounds bg_digit in
      let style : IsStyle (leb 8 n) a =
        at-Below (IsStyle (leb 8 n)) 10 a (styled (leb 8 n)) style_digit in
      convert_code_lem term re regex (digit a) (digit b) (spelled by_letter n)
        (omega (arith, bg_digit)) (spelled-Starts by_letter n fg_number)
      ∙ rw fg (
          ap
            (λ (c : term.Color). ok (record {
              style =
                  merge_styles (if leb 8 n then bold else none) (style_at term re regex (digit a));
              bg = c;
              fg = fg_of term n;
            }))
            bg
          ∙ ap
              (λ (styles : List Styles).
                ok (record { style = styles; bg = color_of term b; fg = fg_of term n }))
              style)
