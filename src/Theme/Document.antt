-- ===== src/Theme/Document.antt =====
-- ui/src/contexts/ThemeContext.tsx, lines 131 to 145: the effect that writes the theme to the page,
-- `document.documentElement`.
use opsup.Prelude.{
  String, Bool, ◌&&◌, List, [], ◌∷◌, Option, none, some, str_eq, template, if◌then◌else◌,
}
use opsup.Theme.Storage.{mode_text, accent_text, Theme, mount, Action, act}
use opsup.Theme.Colors.{get_semantic_colors, variables}

-- The root element: `dataset.theme` and the properties of its style.
pub record Root : Type 0 where
  pub theme : String
  pub style : List (String × String)

abbrev pub get_property : String → List (String × String) → Option String
get_property name [] = none
get_property name ((n, value) ∷ rest) =
    let further = get_property name rest in if str_eq n name then some value else further

-- `root.style.setProperty(name, value)`
unfoldable pub set_property : String → String → List (String × String) → List (String × String)
set_property name value [] = (name, value) ∷ []
set_property name value ((n, old) ∷ rest) =
    let further = set_property name value rest in
    if str_eq n name then (name, value) ∷ rest else (n, old) ∷ further

abbrev pub variable : String → String
variable name = template ("--" ∷ name ∷ [])

-- The loop over `Object.entries(variables)`.
unfoldable pub set_all : List (String × String) → List (String × String) → List (String × String)
unfolding set_property
set_all [] style = style
set_all ((name, value) ∷ rest) style = set_all rest (set_property (variable name) value style)

unfoldable pub effect : Theme → Root → Root
unfolding set_all
effect t root = record {
  theme = mode_text t.mode;
  style = set_all (variables (get_semantic_colors t.mode t.accent)) root.style;
}

-- The provider and the page it stands on.
pub record Page : Type 0 where
  pub shown : Theme
  pub root : Root

-- The effect depends on `mode` and on `colors`, which `useMemo` makes anew for another mode or accent.
abbrev pub is_same : Theme → Theme → Bool
is_same s t =
    str_eq (mode_text s.mode) (mode_text t.mode)
    && str_eq (accent_text s.accent) (accent_text t.accent)

unfoldable pub first_page : Option String → Option String → Root → Page
first_page mode accent root =
    let t = mount mode accent in record { shown = t; root = effect t root }

-- An action, the render after it, and its effect.
unfoldable pub choose : Action → Page → Page
choose a p =
    let t = act a p.shown in
    record { shown = t; root = if is_same p.shown t then p.root else effect t p.root }

unfoldable pub choose_all : List Action → Page → Page
choose_all [] p = p
choose_all (a ∷ rest) p = choose_all rest (choose a p)
