-- ===== src/Tests/Charts.antt =====
-- The browser's figures, feeds, toasts and theme.
use socket_tester.Base.{◌≡◌, refl, [], none, some, true, Text, lit, truthy, arith}
use socket_tester.Client.Series.{StatsState, outgoing, no_stats, record_message, get_time_series}
use socket_tester.Client.Series.Windows
use socket_tester.Client.Series.Windows.{Fits, Reach-Fits}
use socket_tester.Client.Messages.{NewMessage, received, text, no_extras}
use socket_tester.Client.Ui.{
  UiState, Page, initial, set_theme, theme_text, high_contrast, initial-set_theme,
}
use socket_tester.Client.Ui

abbrev counted_once : StatsState
counted_once = record_message (lit "c") outgoing 12 (some 4) 61000 no_stats

Reach-Fits_example : Fits 61000 (get_time_series (lit "c") counted_once)
Reach-Fits_example =
    Reach-Fits (Windows.records (lit "c") outgoing 12 (some 4) 61000 Windows.start (omega arith))
      (lit "c")

abbrev same : Text → Text
same s = s

abbrev hello : NewMessage
hello = record {
  connection_id = lit "c";
  payload = lit "hello";
  direction = received;
  kind = text;
  size = some 5;
  latency = none;
  extras = no_extras;
}

truthy_d : truthy (lit "d") ≡ true
unfolding lit
truthy_d = refl

abbrev ui : UiState
ui = record {
  theme = high_contrast;
  sidebar_open = true;
  active_tab = Ui.messages;
  command_palette_open = true;
}

abbrev page : Page
page = record { data_theme = []; is_dark = true; stored = none }
