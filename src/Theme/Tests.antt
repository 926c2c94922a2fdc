-- ===== src/Theme/Tests.antt =====
-- The theme on concrete choices.
use opsup.Prelude.{◌≡◌, refl, none, some, List, [], ◌∷◌}
use opsup.Theme.Storage.{
  dark, red, load_mode, mount, set_mode, set_accent, toggle_mode, Action, sets_accent, toggles, act,
  run,
}
use opsup.Theme.Reload.{run-reload}
use opsup.Theme.Colors.{get_semantic_colors, variables}
use opsup.Theme.Document.{Root, get_property, set_property, set_all, effect, first_page, choose_all}
use opsup.Theme.Styles.{Wears, first_page-Wears}

abbrev blank : Root
blank = record { theme = ""; style = ("--size", "3") ∷ [] }

abbrev todo : List Action
todo = toggles ∷ sets_accent red ∷ []

toggled : (run todo (mount (some "light") (some "pink"))).mode ≡ dark
unfolding run act set_accent toggle_mode set_mode load_mode
toggled = refl

run-reload_example :
    let t = run todo (mount (some "light") (some "pink")) in
    let again = mount t.stored_mode t.stored_accent in
    (again.mode ≡ t.mode) × (again.accent ≡ t.accent)
run-reload_example = run-reload (some "light") (some "pink") todo

first_page-Wears_example :
    let p = choose_all todo (first_page (some "light") (some "pink") blank) in
    Wears p.root p.shown.mode p.shown.accent
first_page-Wears_example = first_page-Wears (some "light") (some "pink") blank todo

-- What another part set on the root element stays.
untouched : get_property "--size" (effect (mount none none) blank).style ≡ some "3"
unfolding effect set_all set_property variables get_semantic_colors
untouched = refl
