-- ===== src/Theme/Styles.antt =====
-- The page has the colours of the mode and the accent that are chosen.
use text.Mathlib.TextEquality.{eq_iff}
use text.Mathlib.TextPositions.{eq_refl}
use opsup.Prelude.{
  String, Bool, true, false, not, ◌&&◌, ◌≡◌, refl, sym, subst, ap, ◌∙◌, List, [], ◌∷◌, All, Option,
  some, inl, inr, str_eq, Bool-cases, &&_parts, if◌then◌else◌, arith,
}
use opsup.Theme.Reload.{load_mode-mode_text, load_accent-accent_text}
use opsup.Theme.Storage.{
  load_mode, load_accent, ThemeMode, dark, light, AccentKey, mode_text, accent_text, Theme, Action,
  act,
}
use opsup.Theme.Colors.{SemanticColors, get_semantic_colors, variables, accent_map, accent_choices}
use opsup.Theme.Document.{
  Root, get_property, set_property, variable, set_all, effect, Page, is_same, first_page, choose,
  choose_all,
}

abbrev Entries : Type 0
Entries = List (String × String)

get_property-set_property :
    (name value : String) (style : Entries)
    → get_property name (set_property name value style) ≡ some value
unfolding set_property
get_property-set_property name value [] = rw (eq_refl name)
get_property-set_property name value ((n, old) ∷ rest) = elim (Bool-cases (str_eq n name)) [
  | inl e ↦ rw (e, eq_refl name)
  | inr e ↦ rw (e, get_property-set_property name value rest, e)
]

get_property-set_other :
    (name other value : String) (style : Entries)
    → str_eq other name ≡ false
    → get_property name (set_property other value style) ≡ get_property name style
unfolding set_property
get_property-set_other name other value [] h = rw h
get_property-set_other name other value ((n, old) ∷ rest) h = elim (Bool-cases (str_eq n other)) [
  | inl e ↦ rw (e, h, ap (λ x. str_eq x name) ((eq_iff n other).0 e) ∙ h)
  | inr e ↦ ground (arith, e, get_property-set_other name other value rest h)
]

-- No entry has the name, and no two entries share one.
abbrev is_free : String → Entries → Bool
is_free name [] = true
is_free name ((n, value) ∷ rest) = not (str_eq (variable n) name) && is_free name rest

abbrev are_distinct : Entries → Bool
are_distinct [] = true
are_distinct ((n, value) ∷ rest) = is_free (variable n) rest && are_distinct rest

variables_distinct : (c : SemanticColors) → are_distinct (variables c) ≡ true
unfolding variables
variables_distinct c = refl

abbrev pub AreWritten : Entries → Entries → Type 0
AreWritten [] style = Unit
AreWritten ((n, value) ∷ rest) style =
    (get_property (variable n) style ≡ some value) × AreWritten rest style

not-true : (b : Bool) → not b ≡ true → b ≡ false
not-true b h = ground arith

get_property-set_all :
    (name : String) (vars style : Entries)
    → is_free name vars ≡ true
    → get_property name (set_all vars style) ≡ get_property name style
unfolding set_all
get_property-set_all name [] style h = refl
get_property-set_all name ((n, value) ∷ rest) style h =
    let (head, tail) = &&_parts (not (str_eq (variable n) name)) (is_free name rest) h in
    get_property-set_all name rest (set_property (variable n) value style) tail
    ∙ get_property-set_other name (variable n) value style
        (not-true (str_eq (variable n) name) head)

set_all-AreWritten :
    (vars style : Entries) → are_distinct vars ≡ true → AreWritten vars (set_all vars style)
unfolding set_all
set_all-AreWritten [] style h = tt
set_all-AreWritten ((n, value) ∷ rest) style h =
    let (head, tail) = &&_parts (is_free (variable n) rest) (are_distinct rest) h in
    let set = set_property (variable n) value style in
    (
      get_property-set_all (variable n) rest set head
          ∙ get_property-set_property (variable n) value style,
      set_all-AreWritten rest set tail,
    )

-- The root element has the theme's mode and its colours.
abbrev pub Wears : Root → ThemeMode → AccentKey → Type 0
Wears root mode accent =
    (root.theme ≡ mode_text mode)
    × AreWritten (variables (get_semantic_colors mode accent)) root.style

effect-Wears : (t : Theme) (root : Root) → Wears (effect t root) t.mode t.accent
unfolding effect
effect-Wears t root =
    let colors = get_semantic_colors t.mode t.accent in
    (refl, set_all-AreWritten (variables colors) root.style (variables_distinct colors))

mode_text-injective : (m n : ThemeMode) → str_eq (mode_text m) (mode_text n) ≡ true → m ≡ n
mode_text-injective m n h =
    sym (load_mode-mode_text m)
    ∙ ap (λ x. load_mode (some x)) ((eq_iff (mode_text m) (mode_text n)).0 h)
    ∙ load_mode-mode_text n

accent_text-injective : (a b : AccentKey) → str_eq (accent_text a) (accent_text b) ≡ true → a ≡ b
accent_text-injective a b h =
    sym (load_accent-accent_text a)
    ∙ ap (λ x. load_accent (some x)) ((eq_iff (accent_text a) (accent_text b)).0 h)
    ∙ load_accent-accent_text b

abbrev IsDressed : Page → Type 0
IsDressed p = Wears p.root p.shown.mode p.shown.accent

choose-IsDressed : (a : Action) (p : Page) → IsDressed p → IsDressed (choose a p)
unfolding choose
choose-IsDressed a p w = go (is_same p.shown (act a p.shown)) refl
  where
    go :
        (b : Bool)
        → is_same p.shown (act a p.shown) ≡ b
        → Wears
            (if b then p.root else effect (act a p.shown) p.root)
            (act a p.shown).mode
            (act a p.shown).accent
    go true e =
        let t = act a p.shown in
        let (m, c) =
          &&_parts (str_eq (mode_text p.shown.mode) (mode_text t.mode))
            (str_eq (accent_text p.shown.accent) (accent_text t.accent)) e in
        subst (λ x. Wears p.root t.mode x) (accent_text-injective p.shown.accent t.accent c)
          (subst (λ x. Wears p.root x p.shown.accent) (mode_text-injective p.shown.mode t.mode m) w)
    go false e = effect-Wears (act a p.shown) p.root

choose_all-IsDressed : (todo : List Action) (p : Page) → IsDressed p → IsDressed (choose_all todo p)
unfolding choose_all
choose_all-IsDressed [] p w = w
choose_all-IsDressed (a ∷ rest) p w =
    choose_all-IsDressed rest (choose a p) (choose-IsDressed a p w)

-- From any stored choice and any style that the root element had before: after any actions on the
-- theme, the root element names the mode that is chosen, and each property that the effect sets has the
-- colour of that mode and accent, none from a theme chosen earlier.
pub first_page-Wears :
    (stored_mode stored_accent : Option String) (root : Root) (todo : List Action)
    → let p = choose_all todo (first_page stored_mode stored_accent root) in
      Wears p.root p.shown.mode p.shown.accent
unfolding first_page
first_page-Wears stored_mode stored_accent root todo =
    choose_all-IsDressed todo (first_page stored_mode stored_accent root) (effect-Wears _ root)

-- Each accent is offered with the colour that it gives in both modes.
pub color_primary-accent_map :
    (mode : ThemeMode) (a : AccentKey) → (get_semantic_colors mode a).color_primary ≡ accent_map a
unfolding get_semantic_colors
color_primary-accent_map dark a = refl
color_primary-accent_map light a = refl

accent_choices-accent_map : All (λ o. accent_map o.key ≡ o.color) accent_choices
unfolding accent_choices accent_map
accent_choices-accent_map = (refl, (refl, (refl, (refl, (refl, tt)))))
