-- ===== src/Theme/Colors.antt =====
-- ui/src/contexts/ThemeContext.tsx, lines 8 to 69 and 134 to 143: the tables of colours and the
-- properties of the style that they are written to.
use opsup.Prelude.{String, List, [], ◌∷◌, template}
use opsup.Theme.Storage.{ThemeMode, dark, light, AccentKey, blue, green, purple, orange, red}

-- `ACCENT_MAP`
unfoldable pub accent_map : AccentKey → String
accent_map blue = "#1677ff"
accent_map green = "#52c41a"
accent_map purple = "#722ed1"
accent_map orange = "#fa8c16"
accent_map red = "#f5222d"

-- An entry of `ACCENT_OPTIONS`.
pub record AccentOption : Type 0 where
  pub key : AccentKey
  pub color : String
  pub label : String

unfoldable pub accent_choices : List AccentOption
accent_choices =
    record { key = blue; color = "#1677ff"; label = "蓝色" }
    ∷ record { key = green; color = "#52c41a"; label = "绿色" }
    ∷ record { key = purple; color = "#722ed1"; label = "紫色" }
    ∷ record { key = orange; color = "#fa8c16"; label = "橙色" }
    ∷ record { key = red; color = "#f5222d"; label = "红色" }
    ∷ []

pub record SemanticColors : Type 0 where
  pub bg_base : String
  pub bg_sidebar : String
  pub bg_tab_bar : String
  pub bg_card_overlay : String
  pub text_primary : String
  pub text_secondary : String
  pub text_tertiary : String
  pub border_subtle : String
  pub border_light : String
  pub fill_hover : String
  pub fill_subtle : String
  pub fill_medium : String
  pub scrollbar_thumb : String
  pub scrollbar_hover : String
  pub bg_context_menu : String
  pub shadow_context_menu : String
  pub gradient_page : String
  pub gradient_logo : String
  pub color_primary : String
  pub terminal_bg : String
  pub terminal_fg : String

-- `getSemanticColors`
unfoldable pub get_semantic_colors : ThemeMode → AccentKey → SemanticColors
unfolding accent_map
get_semantic_colors dark accent = record {
  bg_base = "#131320";
  bg_sidebar = "#181827";
  bg_tab_bar = "#161625";
  bg_card_overlay = "rgba(26, 26, 46, 0.96)";
  text_primary = "#eeeef6";
  text_secondary = "#b4b4c9";
  text_tertiary = "#9090aa";
  border_subtle = "rgba(180,180,220,0.12)";
  border_light = "rgba(180,180,220,0.07)";
  fill_hover = "rgba(180,180,220,0.09)";
  fill_subtle = "rgba(180,180,220,0.035)";
  fill_medium = "rgba(180,180,220,0.07)";
  scrollbar_thumb = "rgba(180,180,220,0.2)";
  scrollbar_hover = "rgba(180,180,220,0.35)";
  bg_context_menu = "#222238";
  shadow_context_menu = "0 12px 36px rgba(0,0,0,0.3)";
  gradient_page = "radial-gradient(ellipse at 50% 20%, #242444 0%, #171728 48%, #10101d 100%)";
  gradient_logo =
      template
        ("linear-gradient(145deg, " ∷ accent_map accent ∷ ", " ∷ accent_map accent ∷ "bb)" ∷ []);
  color_primary = accent_map accent;
  terminal_bg = "#1a1a2e";
  terminal_fg = "#e0e0e0";
}
get_semantic_colors light accent = record {
  bg_base = "#f3f5f9";
  bg_sidebar = "#fcfcfe";
  bg_tab_bar = "#f8f9fc";
  bg_card_overlay = "rgba(255,255,255,0.97)";
  text_primary = "#23243b";
  text_secondary = "#5d617a";
  text_tertiary = "#70768c";
  border_subtle = "rgba(56,65,99,0.12)";
  border_light = "rgba(56,65,99,0.07)";
  fill_hover = "rgba(56,65,99,0.06)";
  fill_subtle = "rgba(56,65,99,0.025)";
  fill_medium = "rgba(56,65,99,0.05)";
  scrollbar_thumb = "rgba(56,65,99,0.2)";
  scrollbar_hover = "rgba(56,65,99,0.35)";
  bg_context_menu = "#ffffff";
  shadow_context_menu = "0 12px 36px rgba(36,44,80,0.12)";
  gradient_page = "radial-gradient(ellipse at 50% 20%, #e4e8fa 0%, #eef0f8 48%, #f6f7fb 100%)";
  gradient_logo =
      template
        ("linear-gradient(145deg, " ∷ accent_map accent ∷ ", " ∷ accent_map accent ∷ "bb)" ∷ []);
  color_primary = accent_map accent;
  terminal_bg = "#ffffff";
  terminal_fg = "#1a1a1a";
}

-- The entries of `variables`, in their order.
unfoldable pub variables : SemanticColors → List (String × String)
variables colors =
    ("bg-base", colors.bg_base)
    ∷ ("bg-sidebar", colors.bg_sidebar)
    ∷ ("bg-tab-bar", colors.bg_tab_bar)
    ∷ ("bg-terminal", colors.terminal_bg)
    ∷ ("bg-elevated", colors.bg_context_menu)
    ∷ ("text-primary", colors.text_primary)
    ∷ ("text-secondary", colors.text_secondary)
    ∷ ("text-tertiary", colors.text_tertiary)
    ∷ ("scrollbar-thumb", colors.scrollbar_thumb)
    ∷ ("scrollbar-hover", colors.scrollbar_hover)
    ∷ ("fill-hover", colors.fill_hover)
    ∷ ("fill-subtle", colors.fill_subtle)
    ∷ ("fill-medium", colors.fill_medium)
    ∷ ("border-subtle", colors.border_subtle)
    ∷ ("border-light", colors.border_light)
    ∷ ("color-primary", colors.color_primary)
    ∷ ("accent-soft", template (colors.color_primary ∷ "14" ∷ []))
    ∷ ("accent-border", template (colors.color_primary ∷ "40" ∷ []))
    ∷ ("gradient-page", colors.gradient_page)
    ∷ ("gradient-logo", colors.gradient_logo)
    ∷ ("bg-card-overlay", colors.bg_card_overlay)
    ∷ []
