-- ===== src/Terminal/Palette.antt =====
-- ui/src/components/TerminalTab.tsx, lines 18 to 32 and 44 to 47: the colours of a terminal. The text
-- that `termTheme` builds is the list of its code points.
use opsup.Prelude.{
  ℕ, ◌+◌, ◌-◌, ◌*◌, ◌/◌, ◌%◌, ◌<◌, ◌≡◌, refl, ap, ◌∙◌, String, ◌&&◌, List, [], ◌∷◌, ◌++◌, Option,
  none, some, leb, ltb, take, drop, codes, if◌then◌else◌, arith,
}
use opsup.Prelude.Decimal.{decimal}
use opsup.Theme.Storage.{ThemeMode, dark, light, AccentKey}
use opsup.Theme.Colors.{SemanticColors, get_semantic_colors}

pub record TermTheme : Type 0 where
  pub background : String
  pub foreground : String
  pub cursor : String
  pub selection_background : List ℕ
  pub black : String
  pub red : String
  pub green : String
  pub yellow : String
  pub blue : String
  pub magenta : String
  pub cyan : String
  pub white : String
  pub bright_black : String
  pub bright_red : String
  pub bright_green : String
  pub bright_yellow : String
  pub bright_blue : String
  pub bright_magenta : String
  pub bright_cyan : String
  pub bright_white : String

-- `TERM_THEMES`
unfoldable pub term_themes : ThemeMode → TermTheme
term_themes dark = record {
  background = "#1a1a2e";
  foreground = "#e0e0e0";
  cursor = "#1677ff";
  selection_background = codes "rgba(22, 119, 255, 0.3)";
  black = "#1a1a2e";
  red = "#ff6b6b";
  green = "#51cf66";
  yellow = "#ffd43b";
  blue = "#339af0";
  magenta = "#cc5de8";
  cyan = "#22b8cf";
  white = "#e0e0e0";
  bright_black = "#6b6b8d";
  bright_red = "#ff8787";
  bright_green = "#69db7c";
  bright_yellow = "#ffe066";
  bright_blue = "#4dabf7";
  bright_magenta = "#da77f2";
  bright_cyan = "#3bc9db";
  bright_white = "#ffffff";
}
term_themes light = record {
  background = "#ffffff";
  foreground = "#1a1a1a";
  cursor = "#1677ff";
  selection_background = codes "rgba(22, 119, 255, 0.15)";
  black = "#ffffff";
  red = "#c0392b";
  green = "#27ae60";
  yellow = "#f39c12";
  blue = "#2980b9";
  magenta = "#8e44ad";
  cyan = "#16a085";
  white = "#1a1a1a";
  bright_black = "#7f8c8d";
  bright_red = "#e74c3c";
  bright_green = "#2ecc71";
  bright_yellow = "#f1c40f";
  bright_blue = "#3498db";
  bright_magenta = "#9b59b6";
  bright_cyan = "#1abc9c";
  bright_white = "#000000";
}

-- `parseInt(text, 16)`: the digits up to the first code point that is none; `NaN` is `none`. The
-- colours have no white space, sign or `0x`, which it would also take.
abbrev pub hex_value : ℕ → Option ℕ
hex_value c =
    if leb b'0' c && leb c b'9'
    then some (c - b'0')
    else if leb b'a' c && leb c b'f'
    then some (c - b'a' + 10)
    else if leb b'A' c && leb c b'F'
    then some (c - b'A' + 10)
    else none

unfoldable pub parse_rest : ℕ → List ℕ → ℕ
parse_rest acc [] = acc
parse_rest acc (c ∷ cs) = elim (hex_value c) [ none ↦ acc | some d ↦ parse_rest (acc * 16 + d) cs ]

unfoldable pub parse_hex : List ℕ → Option ℕ
unfolding parse_rest
parse_hex [] = none
parse_hex (c ∷ cs) = elim (hex_value c) [ none ↦ none | some d ↦ some (parse_rest d cs) ]

-- A number in a text.
unfoldable pub number_text : Option ℕ → List ℕ
number_text none = codes "NaN"
number_text (some n) = decimal n

-- `hexToRgb(hex)`
abbrev pub slice_hex : ℕ → List ℕ → List ℕ
slice_hex offset hex = number_text (parse_hex (take 2 (drop offset hex)))

unfoldable pub hex_to_rgb : List ℕ → List ℕ
unfolding parse_hex number_text
hex_to_rgb hex = slice_hex 1 hex ++ b',' ∷ slice_hex 3 hex ++ b',' ∷ slice_hex 5 hex

-- `termTheme`
unfoldable pub term_theme : ThemeMode → SemanticColors → TermTheme
unfolding term_themes hex_to_rgb
term_theme mode colors = record (term_themes mode) {
  cursor = colors.color_primary;
  selection_background =
      codes "rgba("
      ++ hex_to_rgb (codes colors.color_primary)
      ++ codes ", "
      ++ elim mode [ dark ↦ codes "0.3" | light ↦ codes "0.15" ]
      ++ codes ")";
}

-- A byte as two hexadecimal digits, and a colour as three such bytes.
abbrev pub hex_digit : ℕ → ℕ
hex_digit d = if ltb d 10 then b'0' + d else b'a' + (d - 10)

abbrev pub hex_byte : ℕ → List ℕ
hex_byte n = hex_digit (n / 16) ∷ hex_digit (n % 16) ∷ []

abbrev pub hex_color : ℕ → ℕ → ℕ → List ℕ
hex_color r g b = b'#' ∷ hex_byte r ++ hex_byte g ++ hex_byte b

hex_value-hex_digit : (d : ℕ) → d < 16 → hex_value (hex_digit d) ≡ some d
hex_value-hex_digit d h = ground arith

parse_hex-pair :
    (c d m n : ℕ)
    → hex_value c ≡ some m
    → hex_value d ≡ some n
    → parse_hex (c ∷ d ∷ []) ≡ some (m * 16 + n)
unfolding parse_hex parse_rest
parse_hex-pair c d m n p q = ground (arith, p, q)

parse_hex-hex_byte : (n : ℕ) → n < 256 → parse_hex (hex_byte n) ≡ some n
parse_hex-hex_byte n h =
    parse_hex-pair (hex_digit (n / 16)) (hex_digit (n % 16)) (n / 16) (n % 16)
      (hex_value-hex_digit (n / 16) (omega arith)) (hex_value-hex_digit (n % 16) (omega arith))
    ∙ ap some (byte n)
  where
    byte : (n : ℕ) → n / 16 * 16 + n % 16 ≡ n
    byte n = omega arith

-- For three bytes: `hexToRgb` of the colour that they are written as, with a `#` and two hexadecimal
-- digits each, is their decimal numerals with commas between.
pub hex_to_rgb-hex_color :
    (r g b : ℕ)
    → r < 256
    → g < 256
    → b < 256
    → hex_to_rgb (hex_color r g b) ≡ decimal r ++ b',' ∷ decimal g ++ b',' ∷ decimal b
unfolding hex_to_rgb number_text
hex_to_rgb-hex_color r g b hr hg hb =
    rw (parse_hex-hex_byte r hr, parse_hex-hex_byte g hg, parse_hex-hex_byte b hb)

-- The terminal stands on the background that the page gives it, with its colour of text.
pub term_theme-get_semantic_colors :
    (mode : ThemeMode) (accent : AccentKey)
    → let colors = get_semantic_colors mode accent in
      let t = term_theme mode colors in
      (t.background ≡ colors.terminal_bg)
      × (t.foreground ≡ colors.terminal_fg)
      × (t.cursor ≡ colors.color_primary)
unfolding term_theme term_themes get_semantic_colors
term_theme-get_semantic_colors dark accent = (refl, refl, refl)
term_theme-get_semantic_colors light accent = (refl, refl, refl)
