-- ===== src/Markdown/Rows/Laws.antt =====
-- Reading back a table row and a delimiter line (web/src/components/MarkdownRenderer.tsx).
use mathlib.Core.List.{reverse, reverse-append, reverse-reverse, reverse-cons}
use ophanim.Base.{
  ◌≡◌, refl, ap, ◌∙◌, true, false, List, [], ◌∷◌, ◌++◌, map, Text, codes, trim, starts_with,
  ends_with, split_on, has_unit, all, drop_while, is_space, join, split_on-absent, split_on-append,
  ends_with-append, drop_last-snoc,
}
use ophanim.Markdown.Rows.{
  Alignment, left, center, right, drop_bar, drop_last_bar, parse_table_row, is_rule,
  is_table_delimiter, alignment_of, get_alignments,
}

-- A cell that can be written in a row: no bar, and no white space at its ends.
pub record IsCell (c : Text) : Type 0 where
  pub no_bar : has_unit c b'|' ≡ false
  pub trimmed : trim c ≡ c

abbrev pub AllCells : List Text → Type 0
AllCells [] = Unit
AllCells (c ∷ cs) = IsCell c × AllCells cs

-- A row as it is written: bars between the cells and at both ends.
abbrev pub row : List Text → Text
row cells = b'|' ∷ join (b'|' ∷ []) cells ++ b'|' ∷ []

split_on-join :
    (c : Text) (cs : List Text)
    → AllCells (c ∷ cs)
    → split_on b'|' (join (b'|' ∷ []) (c ∷ cs)) ≡ c ∷ cs
unfolding join
split_on-join c [] h = split_on-absent b'|' c h.0.no_bar
split_on-join c (d ∷ cs) h =
    split_on-append b'|' c (join (b'|' ∷ []) (d ∷ cs)) h.0.no_bar
    ∙ ap (λ l. c ∷ l) (split_on-join d cs h.1)

map-trim : (cs : List Text) → AllCells cs → map trim cs ≡ cs
map-trim [] h = refl
map-trim (c ∷ cs) h = rw (h.0.trimmed, map-trim cs h.1)

-- A text between two bars is trimmed already.
trim-bars : (s : Text) → trim (b'|' ∷ s ++ b'|' ∷ []) ≡ b'|' ∷ s ++ b'|' ∷ []
unfolding trim
trim-bars s =
    ap (λ r. reverse (drop_while is_space r)) (reverse-append (b'|' ∷ s) (b'|' ∷ []))
    ∙ (reverse-cons b'|' (reverse (b'|' ∷ s))
        ∙ ap (λ l. l ++ b'|' ∷ []) (reverse-reverse (b'|' ∷ s)))

drop_last_bar-snoc : (s : Text) → drop_last_bar (s ++ b'|' ∷ []) ≡ s
unfolding drop_last_bar
drop_last_bar-snoc s = rw (ends_with-append s (b'|' ∷ [])) (drop_last-snoc s b'|')

-- A row of trimmed cells without bars is read back as those cells.
pub parse_table_row-row :
    (c : Text) (cs : List Text) → AllCells (c ∷ cs) → parse_table_row (row (c ∷ cs)) ≡ c ∷ cs
unfolding parse_table_row
parse_table_row-row c cs h =
    let inner = join (b'|' ∷ []) (c ∷ cs) in
    ap (λ s. map trim (split_on b'|' (drop_last_bar (drop_bar s)))) (trim-bars inner)
    ∙ (ap (λ s. map trim (split_on b'|' s)) (drop_last_bar-snoc inner)
        ∙ (ap (map trim) (split_on-join c cs h) ∙ map-trim (c ∷ cs) h))

-- A rule that stands for an alignment.
abbrev pub rule_of : Alignment → Text
rule_of left = codes "---"
rule_of center = codes ":-:"
rule_of right = codes "--:"

rule_of-IsCell : (a : Alignment) → IsCell (rule_of a)
unfolding has_unit trim drop_while is_space
rule_of-IsCell left = record { no_bar = refl; trimmed = refl }
rule_of-IsCell center = record { no_bar = refl; trimmed = refl }
rule_of-IsCell right = record { no_bar = refl; trimmed = refl }

rules-AllCells : (every : List Alignment) → AllCells (map rule_of every)
rules-AllCells [] = tt
rules-AllCells (a ∷ rest) = (rule_of-IsCell a, rules-AllCells rest)

all-is_rule : (every : List Alignment) → all is_rule (map rule_of every) ≡ true
unfolding is_rule
all-is_rule [] = refl
all-is_rule (left ∷ rest) = all-is_rule rest
all-is_rule (center ∷ rest) = all-is_rule rest
all-is_rule (right ∷ rest) = all-is_rule rest

alignment_of-rule_of : (a : Alignment) → alignment_of (rule_of a) ≡ a
unfolding alignment_of starts_with ends_with
alignment_of-rule_of left = refl
alignment_of-rule_of center = refl
alignment_of-rule_of right = refl

map-alignment_of : (every : List Alignment) → map alignment_of (map rule_of every) ≡ every
map-alignment_of [] = refl
map-alignment_of (a ∷ rest) = rw (alignment_of-rule_of a, map-alignment_of rest)

has_dash : (a : Alignment) (cs : List Text) → has_unit (row (rule_of a ∷ cs)) b'-' ≡ true
unfolding has_unit join
has_dash left [] = refl
has_dash center [] = refl
has_dash right [] = refl
has_dash left (c ∷ cs) = refl
has_dash center (c ∷ cs) = refl
has_dash right (c ∷ cs) = refl

-- A delimiter line is recognised, and its alignments are read back, for every list of alignments
-- but the empty one.
pub get_alignments-row :
    (a : Alignment) (rest : List Alignment)
    → (is_table_delimiter (row (map rule_of (a ∷ rest))) ≡ true)
      × (get_alignments (row (map rule_of (a ∷ rest))) ≡ a ∷ rest)
get_alignments-row a rest =
    let read = parse_table_row-row (rule_of a) (map rule_of rest) (rules-AllCells (a ∷ rest)) in
    (
      unfold is_table_delimiter in
          rw
            (
              trim-bars (join (b'|' ∷ []) (map rule_of (a ∷ rest))),
              has_dash a (map rule_of rest),
              read,
            )
            (all-is_rule (a ∷ rest)),
      unfold get_alignments in rw read (map-alignment_of (a ∷ rest)),
    )
