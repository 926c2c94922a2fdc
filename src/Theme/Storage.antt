-- ===== src/Theme/Storage.antt =====
-- ui/src/contexts/ThemeContext.tsx: the mode and the accent, and their two entries in the browser's
-- storage. A change of state is shown with the next render.
use opsup.Prelude.{String, Option, none, some, List, [], ◌∷◌, str_eq, if◌then◌else◌}

pub data ThemeMode : Type 0 where
  dark light : ThemeMode

pub data AccentKey : Type 0 where
  blue green purple orange red : AccentKey

-- The texts that the two types are made of.
abbrev pub mode_text : ThemeMode → String
mode_text dark = "dark"
mode_text light = "light"

abbrev pub accent_text : AccentKey → String
accent_text blue = "blue"
accent_text green = "green"
accent_text purple = "purple"
accent_text orange = "orange"
accent_text red = "red"

-- `ACCENT_OPTIONS`, by their keys.
abbrev pub accent_options : List AccentKey
accent_options = blue ∷ green ∷ purple ∷ orange ∷ red ∷ []

-- The state of `ThemeProvider` and `localStorage` at `opsup_theme_mode` and `opsup_theme_accent`.
pub record Theme : Type 0 where
  pub mode : ThemeMode
  pub accent : AccentKey
  pub stored_mode : Option String
  pub stored_accent : Option String

unfoldable pub load_mode : Option String → ThemeMode
load_mode none = dark
load_mode (some stored) = if str_eq stored "light" then light else dark

-- `options.find(option => option.key === stored)`
unfoldable pub find_accent : String → List AccentKey → Option AccentKey
find_accent stored [] = none
find_accent stored (a ∷ rest) =
    let further = find_accent stored rest in
    if str_eq (accent_text a) stored then some a else further

unfoldable pub load_accent : Option String → AccentKey
load_accent none = blue
load_accent (some stored) = elim (find_accent stored accent_options) [ none ↦ blue | some a ↦ a ]

-- The first render, for what is stored.
abbrev pub mount : Option String → Option String → Theme
mount mode accent = record {
  mode = load_mode mode;
  accent = load_accent accent;
  stored_mode = mode;
  stored_accent = accent;
}

unfoldable pub set_mode : ThemeMode → Theme → Theme
set_mode value t = record t { mode = value; stored_mode = some (mode_text value) }

unfoldable pub set_accent : AccentKey → Theme → Theme
set_accent value t = record t { accent = value; stored_accent = some (accent_text value) }

unfoldable pub toggle_mode : Theme → Theme
toggle_mode t = set_mode (elim t.mode [ dark ↦ light | light ↦ dark ]) t

pub data Action : Type 0 where
  sets_mode : ThemeMode → Action
  sets_accent : AccentKey → Action
  toggles : Action

unfoldable pub act : Action → Theme → Theme
act (sets_mode value) t = set_mode value t
act (sets_accent value) t = set_accent value t
act toggles t = toggle_mode t

unfoldable pub run : List Action → Theme → Theme
run [] t = t
run (a ∷ rest) t = run rest (act a t)
