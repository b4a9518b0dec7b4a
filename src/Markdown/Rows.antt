-- ===== src/Markdown/Rows.antt =====
-- The rows of a Markdown table (web/src/components/MarkdownRenderer.tsx).
pub mod Laws
use ophanim.Base.{
  ℕ, zero, suc, Bool, true, false, ◌&&◌, List, [], ◌∷◌, map, Text, trim, starts_with, ends_with,
  drop_last, split_on, has_unit, is_empty, all, ◌==◌, if◌then◌else◌, drop_while,
}

pub data Alignment : Type 0 where
  left center right : Alignment

-- `if (s.startsWith('|')) s = s.slice(1)`
unfoldable pub drop_bar : Text → Text
drop_bar [] = []
drop_bar (c ∷ s) = if c == b'|' then s else c ∷ s

-- `if (s.endsWith('|')) s = s.slice(0, -1)`
unfoldable pub drop_last_bar : Text → Text
drop_last_bar s = if ends_with s (b'|' ∷ []) then drop_last s else s

-- `parseTableRow`
unfoldable pub parse_table_row : Text → List Text
unfolding drop_bar drop_last_bar
parse_table_row line = map trim (split_on b'|' (drop_last_bar (drop_bar (trim line))))

-- `s` behind an optional colon.
unfoldable pub drop_colon : Text → Text
drop_colon [] = []
drop_colon (c ∷ s) = if c == b':' then s else c ∷ s

-- The rest behind the dashes: nothing, or one colon.
unfoldable pub ends_rule : Text → Bool
ends_rule [] = true
ends_rule (c ∷ []) = c == b':'
ends_rule (c ∷ d ∷ s) = false

-- The dashes of a rule, at least one of them read.
unfoldable pub dashes : Text → Bool
unfolding ends_rule drop_while
dashes [] = false
dashes (c ∷ s) = (c == b'-') && ends_rule (drop_while (λ a. a == b'-') s)

-- `/^:?-+:?$/.test(c)`
unfoldable pub is_rule : Text → Bool
unfolding drop_colon dashes
is_rule c = dashes (drop_colon c)

-- `isTableDelimiter`
unfoldable pub is_table_delimiter : Text → Bool
is_table_delimiter line = has_unit (trim line) b'-' && all is_rule (parse_table_row (trim line))

unfoldable pub alignment_of : Text → Alignment
alignment_of c =
    if starts_with c (b':' ∷ []) && ends_with c (b':' ∷ [])
    then center
    else if ends_with c (b':' ∷ [])
    then right
    else left

-- `getAlignments`
unfoldable pub get_alignments : Text → List Alignment
unfolding alignment_of
get_alignments line = map alignment_of (parse_table_row line)

-- `table.alignments[i] || 'left'`
unfoldable pub alignment_at : List Alignment → ℕ → Alignment
alignment_at [] i = left
alignment_at (a ∷ rest) zero = a
alignment_at (a ∷ rest) (suc i) = alignment_at rest i
