-- ===== src/Client/FeedPanel/Csv.antt =====
-- A payload of the exported CSV reads back.
use socket_tester.Base.{
  ℕ, ◌≡◌, refl, ap, sym, ==_iff, Option, none, some, [], ◌∷◌, ◌++◌, Text, if◌then◌else◌, ◌==◌,
  arith, Bool-cases, inl, inr,
}
use socket_tester.Client.FeedPanel.{double_quotes}

abbrev with_first : ℕ → Option (Text × Text) → Option (Text × Text)
with_first c none = none
with_first c (some (s, rest)) = some (c ∷ s, rest)

-- A reader of CSV after the opening quote: a doubled quote stands for one, and a single one ends.
unfoldable pub read_quoted : Text → Option (Text × Text)
read_quoted [] = none
read_quoted (c ∷ []) = if c == 34 then some ([], []) else none
read_quoted (c ∷ d ∷ s) =
    let after_pair = with_first 34 (read_quoted s) in
    let after_one = with_first c (read_quoted (d ∷ s)) in
    if c == 34 then (if d == 34 then after_pair else some ([], d ∷ s)) else after_one

double_quotes-cons : (s rest : Text) → (c : ℕ) × (t : Text) × (double_quotes s ++ 34 ∷ rest ≡ c ∷ t)
unfolding double_quotes
double_quotes-cons [] rest = (34, rest, refl)
double_quotes-cons (c ∷ s) rest = elim (Bool-cases (c == 34)) [
  | inl e ↦ (34, 34 ∷ (double_quotes s ++ 34 ∷ rest), rw (e, double_quotes) refl)
  | inr e ↦ (c, double_quotes s ++ 34 ∷ rest, rw (e, double_quotes) refl)
]

-- A quoted text followed by a comma, as a cell of a row is, reads back as the text and the rest of
-- the row.
pub read_quoted-double_quotes :
    (s rest : Text) → read_quoted (double_quotes s ++ 34 ∷ 44 ∷ rest) ≡ some (s, 44 ∷ rest)
unfolding read_quoted double_quotes
read_quoted-double_quotes [] rest = refl
read_quoted-double_quotes (c ∷ s) rest = elim (Bool-cases (c == 34)) [
  | inl e ↦
      rw (e, double_quotes)
        (rw (read_quoted-double_quotes s rest)
          (ap (λ x. some (x ∷ s, 44 ∷ rest)) (sym ((==_iff c 34).0 e))))
  | inr e ↦
      let (d, t, same) = double_quotes-cons s (44 ∷ rest) in
      ground (arith, e, same, read_quoted-double_quotes s rest)
]
