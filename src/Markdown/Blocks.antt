-- ===== src/Markdown/Blocks.antt =====
-- The line blocks of a paragraph (web/src/components/MarkdownRenderer.tsx): the loop of
-- `FormattedParagraph`, with the lines that are left in place of an index into all of them.
pub mod Laws
use ophanim.Base.{
  ℕ, zero, suc, ◌+◌, ◌-◌, Bool, true, false, not, ◌&&◌, ◌||◌, Option, none, some, List, [], ◌∷◌,
  map, Text, codes, trim, starts_with, has_unit, is_empty, is_space, drop, drop_while, leb, any,
  ◌==◌, if◌then◌else◌, length, split_on,
}
use ophanim.Markdown.Rows.{Alignment, parse_table_row, is_table_delimiter, get_alignments}

pub record TableData : Type 0 where
  pub headers : List Text
  pub alignments : List Alignment
  pub rows : List (List Text)

-- `BlockItem`, without its key.
pub data Block : Type 0 where
  table : TableData → Block
  header : ℕ → Text → Block
  bullet : Text → Block
  number : Text → Text → Block
  quote : Text → Block
  empty : Block
  line : Text → Block

-- The rows under a delimiter, and the lines behind the table.
unfoldable pub table_rows : List Text → List (List Text) × List Text
table_rows [] = ([], [])
table_rows (l ∷ ls) =
    let more = table_rows ls in
    if is_empty (trim l) || not (has_unit (trim l) b'|')
    then ([], l ∷ ls)
    else (parse_table_row (trim l) ∷ more.0, more.1)

-- `s.replace(/^#{m,n}\s+/, '')` of a text that begins with so many hashes and a space.
unfoldable pub strip_hashes : Text → Text
strip_hashes s = drop_while is_space (drop_while (λ c. c == b'#') s)

abbrev is_digit : ℕ → Bool
is_digit c = leb b'0' c && leb c b'9'

unfoldable pub take_digits : Text → Text
take_digits [] = []
take_digits (c ∷ s) = if is_digit c then c ∷ take_digits s else []

-- The units that `.` of a regular expression does not match.
abbrev is_line_end : ℕ → Bool
is_line_end c = (c == 10) || (c == 13) || (c == 0x2028) || (c == 0x2029)

-- The part of the match behind the digits.
unfoldable pub match_item : Text → Text → Option (Text × Text)
match_item [] rest = none
match_item (d ∷ ds) [] = none
match_item (d ∷ ds) (p ∷ []) = none
match_item (d ∷ ds) (p ∷ c ∷ s) =
    if (p == b'.') && is_space c && not (any is_line_end (drop_while is_space s))
    then some (d ∷ ds, drop_while is_space s)
    else none

-- `trimmed.match(/^(\d+)\.\s+(.*)$/)`
unfoldable pub match_number : Text → Option (Text × Text)
unfolding take_digits match_item
match_number s = match_item (take_digits s) (drop_while is_digit s)

-- The block of a line that begins no table.
unfoldable pub line_block : Text → Text → Block
unfolding strip_hashes match_number
line_block raw trimmed =
    if is_empty trimmed
    then empty
    else if starts_with trimmed (codes "### ") || starts_with trimmed (codes "#### ")
    then header 3 (strip_hashes trimmed)
    else if starts_with trimmed (codes "## ") || starts_with trimmed (codes "# ")
    then header 1 (strip_hashes trimmed)
    else if starts_with trimmed (codes "- ") || starts_with trimmed (codes "* ")
    then bullet (drop 2 trimmed)
    else elim (match_number trimmed) [
      | some (num, text) ↦ number num text
      | none ↦ if starts_with trimmed (codes "> ") then quote (drop 2 trimmed) else line raw
    ]

-- `trimmed.includes('|') && i + 1 < lines.length && isTableDelimiter(lines[i + 1])`
unfoldable pub begins_table : Text → List Text → Bool
begins_table trimmed [] = false
begins_table trimmed (next ∷ rest) = has_unit trimmed b'|' && is_table_delimiter next

-- The table that a header line and its delimiter begin, and the lines behind it.
unfoldable pub table_block : Text → List Text → Block × List Text
unfolding table_rows
table_block trimmed [] = (empty, [])
table_block trimmed (next ∷ rest) = (
  table (record {
    headers = parse_table_row trimmed;
    alignments = get_alignments next;
    rows = (table_rows rest).0;
  }),
  (table_rows rest).1,
)

-- One round of the loop: the block at the first of the lines that are left, and the lines behind.
unfoldable pub next_block : Text → List Text → Block × List Text
unfolding begins_table table_block line_block
next_block raw rest =
    if begins_table (trim raw) rest
    then table_block (trim raw) rest
    else (line_block raw (trim raw), rest)

-- The loop from line `i` on; `none` means that the fuel ran out.
unfoldable pub blocks_from : ℕ → ℕ → List Text → Option (List (ℕ × Block))
blocks_from zero i lines = none
blocks_from (suc fuel) i [] = some []
blocks_from (suc fuel) i (raw ∷ rest) =
    let (block, behind) = next_block raw rest in
    let more = blocks_from fuel (i + (length (raw ∷ rest) - length behind)) behind in
    elim more [ none ↦ none | some items ↦ some ((i, block) ∷ items) ]

-- `blocks`, behind the keys that the loop gives them.
unfoldable pub blocks : Text → Option (List (ℕ × Block))
unfolding blocks_from
blocks text = let lines = split_on 10 text in blocks_from (suc (length lines)) 0 lines
