-- ===== src/Theme/Tokens.antt =====
-- ui/src/contexts/ThemeContext.tsx, lines 109 to 129: `themeConfig`, the tokens of the design library.
use opsup.Prelude.{String, ℕ, ◌≡◌, some}
use opsup.Theme.Storage.{ThemeMode, dark, light, AccentKey}
use opsup.Theme.Colors.{SemanticColors, get_semantic_colors, variables}
use opsup.Theme.Document.{Root, get_property}
use opsup.Theme.Styles.{Wears}

pub data Algorithm : Type 0 where
  dark_algorithm default_algorithm : Algorithm

pub record Token : Type 0 where
  pub color_primary : String
  pub color_bg_container : String
  pub color_bg_elevated : String
  pub color_bg_layout : String
  pub color_border : String
  pub color_text : String
  pub color_text_secondary : String
  pub color_text_placeholder : String
  pub font_family : String
  pub border_radius : ℕ
  pub control_height : ℕ

-- `components`: the radius of a dialog, the two colours of a table, the weight of a button's text.
pub record Components : Type 0 where
  pub modal_border_radius_lg : ℕ
  pub table_header_bg : String
  pub table_row_hover_bg : String
  pub button_font_weight : ℕ

pub record ThemeConfig : Type 0 where
  pub algorithm : Algorithm
  pub token : Token
  pub components : Components

unfoldable pub theme_config : ThemeMode → SemanticColors → ThemeConfig
theme_config mode colors = record {
  algorithm = elim mode [ dark ↦ dark_algorithm | light ↦ default_algorithm ];
  token = record {
    color_primary = colors.color_primary;
    color_bg_container = elim mode [ dark ↦ "#1e1e32" | light ↦ "#ffffff" ];
    color_bg_elevated = colors.bg_context_menu;
    color_bg_layout = colors.bg_base;
    color_border = elim mode [ dark ↦ "#38384f" | light ↦ "#dfe3ed" ];
    color_text = colors.text_primary;
    color_text_secondary = colors.text_secondary;
    color_text_placeholder = colors.text_tertiary;
    font_family = "var(--font-ui)";
    border_radius = 8;
    control_height = 34;
  };
  components = record {
    modal_border_radius_lg = 12;
    table_header_bg = colors.fill_subtle;
    table_row_hover_bg = colors.fill_hover;
    button_font_weight = 500;
  };
}

-- A page that wears a theme has the colours of the library's tokens: on the page's ground, on what
-- stands above it, in the text and in the accent.
pub theme_config-Wears :
    (root : Root) (mode : ThemeMode) (accent : AccentKey)
    → Wears root mode accent
    → let token = (theme_config mode (get_semantic_colors mode accent)).token in
      (get_property "--bg-base" root.style ≡ some token.color_bg_layout)
      × (get_property "--bg-elevated" root.style ≡ some token.color_bg_elevated)
      × (get_property "--text-primary" root.style ≡ some token.color_text)
      × (get_property "--color-primary" root.style ≡ some token.color_primary)
unfolding theme_config variables
theme_config-Wears root mode accent (named, w) =
    (w.0, w.1.1.1.1.0, w.1.1.1.1.1.0, w.1.1.1.1.1.1.1.1.1.1.1.1.1.1.1.0)
