-- ===== src/Log/Export.antt =====
-- The NDJSON export and the lines that a reader gets back.
use socket_tester.Base.{
  ℕ, ◌≡◌, ◌≢◌, refl, none, List, [], ◌∷◌, ◌++◌, map, Text, All, default, lookup, arith, ◌==◌,
  if◌then◌else◌, ◌∙◌, ap,
}
use socket_tester.Log.{LogEntry, LogState, get_by_connection, join_lines, export_ndjson}

-- `s.split('\n')`
abbrev add_to_first : ℕ → List Text → List Text
add_to_first c [] = (c ∷ []) ∷ []
add_to_first c (l ∷ ls) = (c ∷ l) ∷ ls

abbrev pub split_lines : Text → List Text
split_lines [] = [] ∷ []
split_lines (c ∷ s) = let rest = split_lines s in if c == 10 then [] ∷ rest else add_to_first c rest

abbrev pub HasNoNewline : Text → Type 0
HasNoNewline s = All (λ c. c ≢ 10) s

split_lines-line : (l s : Text) → HasNoNewline l → split_lines (l ++ 10 ∷ s) ≡ l ∷ split_lines s
split_lines-line [] s h = refl
split_lines-line (c ∷ l) s (p, h) = ground (arith, split_lines-line l s h)

split_lines_of_HasNoNewline : (l : Text) → HasNoNewline l → split_lines l ≡ l ∷ []
split_lines_of_HasNoNewline [] h = refl
split_lines_of_HasNoNewline (c ∷ l) (p, h) = ground (arith, split_lines_of_HasNoNewline l h)

pub split_lines-join_lines :
    (l : Text) (ls : List Text)
    → All HasNoNewline (l ∷ ls)
    → split_lines (join_lines (l ∷ ls)) ≡ l ∷ ls
unfolding join_lines
split_lines-join_lines l [] (h, _) = split_lines_of_HasNoNewline l h
split_lines-join_lines l (m ∷ ls) (h, hs) =
    split_lines-line l (join_lines (m ∷ ls)) h ∙ ap (◌∷◌ l) (split_lines-join_lines m ls hs)

pub All-map :
    (f : LogEntry → Text) (es : List LogEntry)
    → ((e : LogEntry) → HasNoNewline (f e))
    → All HasNoNewline (map f es)
All-map f [] h = tt
All-map f (e ∷ es) h = (h e, All-map f es h)

-- Reading the export of a log that is not empty line by line gives each entry's JSON, in order,
-- provided that `JSON.stringify` writes no line break.
pub split_lines-export_ndjson :
    (stringify : LogEntry → Text) (id : Text) (st : LogState)
    → ((e : LogEntry) → HasNoNewline (stringify e))
    → get_by_connection id none st ≢ []
    → split_lines (export_ndjson stringify id st) ≡ map stringify (get_by_connection id none st)
unfolding export_ndjson get_by_connection
split_lines-export_ndjson stringify id st h ne = go (default [] (lookup id st.logs)) ne
  where
    go :
        (es : List LogEntry)
        → es ≢ []
        → split_lines (join_lines (map stringify es)) ≡ map stringify es
    go [] n = absurd (n refl)
    go (e ∷ es) n =
        split_lines-join_lines (stringify e) (map stringify es) (h e, All-map stringify es h)
