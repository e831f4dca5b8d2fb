-- ===== src/Client/Ui.antt =====
-- src/client/src/stores/uiStore.ts: the theme, which outlives the page, and what is open on it.
use socket_tester.Base.{
  ◌≡◌, refl, Bool, true, false, not, Option, none, some, Text, lit, text_eq, if◌then◌else◌,
}

pub data Theme : Type 0 where
  dark light dracula high_contrast solarized : Theme

pub data MainTab : Type 0 where
  messages stats logs performance : MainTab

pub record UiState : Type 0 where
  pub theme : Theme
  pub sidebar_open : Bool
  pub active_tab : MainTab
  pub command_palette_open : Bool

-- The attribute and the class of the page's root element, and the stored theme.
pub record Page : Type 0 where
  pub data_theme : Text
  pub is_dark : Bool
  pub stored : Option Text

unfoldable pub theme_text : Theme → Text
theme_text dark = lit "dark"
theme_text light = lit "light"
theme_text dracula = lit "dracula"
theme_text high_contrast = lit "high-contrast"
theme_text solarized = lit "solarized"

abbrev is_light : Theme → Bool
is_light light = true
is_light _ = false

unfoldable pub apply_theme : Theme → Page → Page
unfolding theme_text
apply_theme theme page = record page {
  data_theme = theme_text theme;
  is_dark = not (is_light theme);
}

-- A stored text that names no theme counts as none.
unfoldable pub theme_of : Text → Theme
unfolding theme_text
theme_of saved =
    if text_eq saved (theme_text light)
    then light
    else if text_eq saved (theme_text dracula)
    then dracula
    else if text_eq saved (theme_text high_contrast)
    then high_contrast
    else if text_eq saved (theme_text solarized)
    then solarized
    else dark

unfoldable pub load_theme : Option Text → Theme
unfolding theme_of
load_theme none = dark
load_theme (some saved) = theme_of saved

-- The page loads.
unfoldable pub initial : Page → UiState × Page
unfolding load_theme apply_theme
initial page =
    let theme = load_theme page.stored in
    (
      record {
        theme = theme;
        sidebar_open = true;
        active_tab = messages;
        command_palette_open = false;
      },
      apply_theme theme page,
    )

unfoldable pub set_theme : Theme → UiState → Page → UiState × Page
unfolding apply_theme
set_theme theme st page = (
  record st { theme = theme },
  record (apply_theme theme page) { stored = some (theme_text theme) },
)

unfoldable pub toggle_sidebar : UiState → UiState
toggle_sidebar st = record st { sidebar_open = not st.sidebar_open }

unfoldable pub set_sidebar_open : Bool → UiState → UiState
set_sidebar_open open_now st = record st { sidebar_open = open_now }

unfoldable pub set_active_tab : MainTab → UiState → UiState
set_active_tab tab st = record st { active_tab = tab }

unfoldable pub set_command_palette_open : Bool → UiState → UiState
set_command_palette_open open_now st = record st { command_palette_open = open_now }

unfoldable pub toggle_command_palette : UiState → UiState
toggle_command_palette st = record st { command_palette_open = not st.command_palette_open }

-- A theme that was set is the theme after the next load of the page, and the page shows it both
-- times.
pub initial-set_theme :
    (theme : Theme) (st : UiState) (page : Page)
    → let shown = (set_theme theme st page).1 in
      ((initial shown).0.theme ≡ theme)
      × ((initial shown).1 ≡ shown)
      × (shown.data_theme ≡ theme_text theme)
unfolding initial set_theme text_eq lit theme_of theme_text
initial-set_theme dark st page = (refl, refl, refl)
initial-set_theme light st page = (refl, refl, refl)
initial-set_theme dracula st page = (refl, refl, refl)
initial-set_theme high_contrast st page = (refl, refl, refl)
initial-set_theme solarized st page = (refl, refl, refl)
