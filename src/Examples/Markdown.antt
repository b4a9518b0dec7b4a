-- ===== src/Examples/Markdown.antt =====
-- web/src/components/MarkdownRenderer.tsx at concrete texts.
use ophanim.Base.{
  ℕ, suc, ◌≡◌, refl, ◌≢◌, all, true, false, some, List, [], ◌∷◌, ◌++◌, map, Text, codes, trim,
  has_unit, split_on, length, drop_while, is_space,
}
use ophanim.Markdown.Rows.{left, center, parse_table_row, is_table_delimiter, get_alignments}
use ophanim.Markdown.Rows.Laws.{AllCells, row, rule_of, parse_table_row-row, get_alignments-row}
use ophanim.Markdown.Blocks.{Block, TableData, blocks}
use ophanim.Markdown.Blocks.Laws.{Tiles, blocks_lem}
use ophanim.Markdown.Inline.{copy_table}
use ophanim.Markdown.Inline.Copy.{is_row, split-copy_table}
use ophanim.Markdown.Fences.{split_fences, is_language, render_part}
use ophanim.Markdown.Fences.Written as Fenced

two_cells : AllCells (codes "a b" ∷ codes "c" ∷ [])
unfolding trim drop_while is_space has_unit
two_cells =
    (record { no_bar = refl; trimmed = refl }, (record { no_bar = refl; trimmed = refl }, tt))

parse_table_row_example :
    parse_table_row (row (codes "a b" ∷ codes "c" ∷ [])) ≡ codes "a b" ∷ codes "c" ∷ []
parse_table_row_example = parse_table_row-row (codes "a b") (codes "c" ∷ []) two_cells

get_alignments_example :
    (is_table_delimiter (row (map rule_of (left ∷ center ∷ []))) ≡ true)
    × (get_alignments (row (map rule_of (left ∷ center ∷ []))) ≡ left ∷ center ∷ [])
get_alignments_example = get_alignments-row left (center ∷ [])

blocks_example :
    (items : List (ℕ × Block)) × (blocks (codes "# Title" ++ 10 ∷ codes "- item") ≡ some items)
    × Tiles 0 items (length (split_on 10 (codes "# Title" ++ 10 ∷ codes "- item")))
blocks_example = blocks_lem (codes "# Title" ++ 10 ∷ codes "- item")

abbrev script : Fenced.Block
script = record { prose = codes "see "; language = codes "js"; code = codes "x = 1" }

script-IsClean : Fenced.IsClean script
unfolding has_unit is_language trim drop_while is_space
script-IsClean = record {
  plain_prose = refl;
  plain_body = refl;
  is_named = refl;
  one_line = refl;
  untrimmed = refl;
}

no_tick : has_unit (codes " end") b'`' ≡ false
unfolding has_unit
no_tick = refl

written_example :
    (parts : List Text) × (split_fences
        (suc (length (Fenced.written (script ∷ []) (codes " end"))))
        (Fenced.written (script ∷ []) (codes " end"))
      ≡ some parts)
    × (map render_part parts ≡ Fenced.shown (script ∷ []) (codes " end"))
written_example =
    Fenced.render_part-written (script ∷ []) (codes " end") (script-IsClean, tt) no_tick

abbrev small_table : TableData
small_table = record {
  headers = codes "name" ∷ codes "state" ∷ [];
  alignments = [];
  rows = (codes "web" ∷ codes "up" ∷ []) ∷ (codes "db" ∷ [] ∷ []) ∷ [];
}

has_rows : small_table.rows ≢ []
has_rows e = cc

are_cells : (is_row small_table.headers ≡ true) × (all is_row small_table.rows ≡ true)
unfolding has_unit
are_cells = (refl, refl)

copy_example :
    map (split_on 9) (split_on 10 (copy_table small_table)) ≡ small_table.headers ∷ small_table.rows
copy_example = split-copy_table small_table are_cells.0 has_rows are_cells.1
