-- ===== src/Theme/Reload.antt =====
-- A theme that was chosen is there again after a reload.
use opsup.Prelude.{String, ◌≡◌, refl, Option, some, List, [], ◌∷◌}
use opsup.Theme.Storage.{
  ThemeMode, dark, light, AccentKey, blue, green, purple, orange, red, mode_text, accent_text,
  Theme, load_mode, find_accent, load_accent, mount, set_mode, set_accent, toggle_mode, Action,
  sets_mode, sets_accent, toggles, act, run,
}

pub load_mode-mode_text : (m : ThemeMode) → load_mode (some (mode_text m)) ≡ m
unfolding load_mode
load_mode-mode_text dark = refl
load_mode-mode_text light = refl

pub load_accent-accent_text : (a : AccentKey) → load_accent (some (accent_text a)) ≡ a
unfolding load_accent find_accent
load_accent-accent_text blue = refl
load_accent-accent_text green = refl
load_accent-accent_text purple = refl
load_accent-accent_text orange = refl
load_accent-accent_text red = refl

abbrev IsKept : Theme → Type 0
IsKept t = (load_mode t.stored_mode ≡ t.mode) × (load_accent t.stored_accent ≡ t.accent)

act-IsKept : (a : Action) (t : Theme) → IsKept t → IsKept (act a t)
unfolding act set_mode set_accent toggle_mode
act-IsKept (sets_mode value) t k = (load_mode-mode_text value, k.1)
act-IsKept (sets_accent value) t k = (k.0, load_accent-accent_text value)
act-IsKept toggles t k = (load_mode-mode_text _, k.1)

run-IsKept : (todo : List Action) (t : Theme) → IsKept t → IsKept (run todo t)
unfolding run
run-IsKept [] t k = k
run-IsKept (a ∷ rest) t k = run-IsKept rest (act a t) (act-IsKept a t k)

-- Whatever the storage held, after any choices of a mode or an accent and any toggles, loading the
-- page again shows the mode and the accent that were shown last.
pub run-reload :
    (stored_mode stored_accent : Option String) (todo : List Action)
    → let t = run todo (mount stored_mode stored_accent) in
      let again = mount t.stored_mode t.stored_accent in
      (again.mode ≡ t.mode) × (again.accent ≡ t.accent)
run-reload stored_mode stored_accent todo =
    run-IsKept todo (mount stored_mode stored_accent) (refl, refl)
