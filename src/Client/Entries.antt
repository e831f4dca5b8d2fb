-- ===== src/Client/Entries.antt =====
-- src/client/src/stores/logStore.ts: the log of all connections that the log panel shows. An entry
-- has the fields of the server's; `lower` is `toLowerCase()`.
use socket_tester.Base.{
  ℕ, ◌+◌, Bool, true, not, ◌&&◌, ◌||◌, Option, none, some, List, [], ◌∷◌, ◌++◌, filter, drop,
  length, leb, Text, lit, text_eq, truthy, includes, default, given, if◌then◌else◌,
}
use socket_tester.Log.{LogLevel, info, warn, error, debug, LogInput, LogEntry, new_entry, level_eq}

pub record EntryFilter : Type 0 where
  pub level : Option LogLevel
  pub search : Text

-- `Partial<…>`; the inner option is `all`.
pub record PartialFilter : Type 0 where
  pub level : Option (Option LogLevel)
  pub search : Option Text

-- `counter` is a variable of the module, one for all entries.
pub record EntryState : Type 0 where
  pub entries : List LogEntry
  pub counter : ℕ
  pub filters : EntryFilter

abbrev pub max_entries : ℕ
max_entries = 5000

abbrev pub no_entries : EntryState
no_entries = record { entries = []; counter = 0; filters = record { level = none; search = [] } }

unfoldable pub add_entry : LogInput → ℕ → EntryState → EntryState
add_entry e now st =
    let kept = if leb max_entries (length st.entries) then drop 1 st.entries else st.entries in
    record st { entries = kept ++ new_entry now (st.counter + 1) e ∷ []; counter = st.counter + 1 }

unfoldable pub set_filter : PartialFilter → EntryState → EntryState
set_filter partial st = record st {
  filters = record {
    level = given partial.level st.filters.level;
    search = given partial.search st.filters.search;
  };
}

unfoldable pub clear_for_connection : Text → EntryState → EntryState
clear_for_connection id st = record st {
  entries = filter (λ e. not (text_eq e.input.connection_id id)) st.entries;
}

unfoldable pub clear_all : EntryState → EntryState
clear_all st = record st { entries = [] }

unfoldable pub level_text : LogLevel → Text
level_text info = lit "info"
level_text warn = lit "warn"
level_text error = lit "error"
level_text debug = lit "debug"

unfoldable pub has_level : Option LogLevel → LogEntry → Bool
has_level none e = true
has_level (some level) e = level_eq e.input.level level

-- The level is searched as it is.
unfoldable pub is_found : (Text → Text) → Text → LogEntry → Bool
unfolding level_text
is_found lower search e =
    not (truthy search)
    || includes (lower e.input.event) (lower search)
    || includes (lower (default [] e.input.payload)) (lower search)
    || includes (level_text e.input.level) (lower search)

unfoldable pub get_filtered : (Text → Text) → Text → EntryState → List LogEntry
unfolding has_level is_found
get_filtered lower id st =
    filter
      (λ e.
        text_eq e.input.connection_id id
        && (has_level st.filters.level e && is_found lower st.filters.search e))
      st.entries
