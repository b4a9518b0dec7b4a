-- ===== src/Markdown/Inline.antt =====
-- The inline styles of a line: code, bold, italics and links, and the copy of a table
-- (web/src/components/MarkdownRenderer.tsx).
pub mod Laws
pub mod Copy
use ophanim.Base.{
  ℕ, zero, suc, ◌+◌, Bool, true, false, not, ◌&&◌, ◌||◌, Option, none, some, List, [], ◌∷◌, ◌++◌,
  map, Text, codes, ◌==◌, if◌then◌else◌, is_empty, cons_piece, ◌===◌, text_eq_instance, length,
  join, starts_with, ends_with, drop, drop_last, ltb,
}
use ophanim.Markdown.Blocks.{TableData}

-- The code units of the marks: `*`, the backtick, brackets and parentheses.
abbrev pub star : ℕ
star = 42

abbrev pub tick : ℕ
tick = 96

-- The longest piece without a unit, and the rest, which is empty or begins with that unit.
unfoldable pub span_to : ℕ → Text → Text × Text
span_to c [] = ([], [])
span_to c (a ∷ s) = let rest = span_to c s in if a == c then ([], a ∷ s) else (a ∷ rest.0, rest.1)

-- A mark, a piece `[^c]+`, and what closes it: the text that is matched, and the rest.
unfoldable pub enclosed : ℕ → Text → Text → Text → Option (Text × Text)
unfolding span_to
enclosed c mark close s =
    let found = span_to c s in
    if is_empty found.0 || not (starts_with found.1 close)
    then none
    else some (mark ++ (found.0 ++ close), drop (length close) found.1)

unfoldable pub or_match : Option (Text × Text) → Option (Text × Text) → Option (Text × Text)
or_match none m = m
or_match (some m) n = some m

-- The target of a link, behind its label.
unfoldable pub link_target : Text → Text → Option (Text × Text)
unfolding enclosed
link_target label s = enclosed 41 label (codes ")") s

unfoldable pub bold_at : Text → Option (Text × Text)
unfolding enclosed
bold_at [] = none
bold_at (b ∷ t) = if b == star then enclosed star (star ∷ star ∷ []) (star ∷ star ∷ []) t else none

unfoldable pub link_at : Text → Option (Text × Text)
unfolding enclosed link_target
link_at s = elim (enclosed 93 (codes "[") (codes "](") s) [
  | none ↦ none
  | some (label, t) ↦ link_target label t
]

-- The alternatives of the pattern at one place, in their order.
unfoldable pub match_token : Text → Option (Text × Text)
unfolding enclosed or_match link_at bold_at
match_token [] = none
match_token (a ∷ s) =
    if a == tick
    then enclosed tick (tick ∷ []) (tick ∷ []) s
    else if a == star
    then or_match (bold_at s) (enclosed star (star ∷ []) (star ∷ []) s)
    else if a == 91
    then link_at s
    else none

-- `text.split(…)`, on fuel: what stands between the matches, and the matches, in turn.
unfoldable pub split_from : ℕ → Text → List Text
unfolding match_token
split_from zero s = s ∷ []
split_from (suc n) [] = [] ∷ []
split_from (suc n) (a ∷ s) = elim (match_token (a ∷ s)) [
  | none ↦ cons_piece a (split_from n s)
  | some (token, rest) ↦ [] ∷ token ∷ split_from n rest
]

unfoldable pub split_inline : Text → List Text
unfolding split_from
split_inline s = split_from (length s) s

-- A token as it is shown.
pub data Styled : Type 0 where
  plain code bold italic : Text → Styled
  link : Text → Text → Styled

-- `/^\[([^\]]+)\]\(([^)]+)\)$/` behind the opening bracket.
unfoldable pub link_parts : Text → Option (Text × Text)
unfolding span_to
link_parts s =
    let label = span_to 93 s in
    let target = span_to 41 (drop 2 label.1) in
    if is_empty label.0
      || not (starts_with label.1 (codes "]("))
      || is_empty target.0
      || not (target.1 === codes ")")
    then none
    else some (label.0, target.0)

unfoldable pub link_or_plain : Text → Styled
unfolding link_parts
link_or_plain t =
    if starts_with t (codes "[")
    then elim (link_parts (drop 1 t)) [ none ↦ plain t | some (label, target) ↦ link label target ]
    else plain t

-- The style of a token, whether it was a match or not.
unfoldable pub style_of : Text → Styled
unfolding link_or_plain
style_of t =
    if starts_with t (tick ∷ []) && ends_with t (tick ∷ []) && ltb 2 (length t)
    then code (drop_last (drop 1 t))
    else if starts_with t (star ∷ star ∷ []) && ends_with t (star ∷ star ∷ []) && ltb 4 (length t)
    then bold (drop_last (drop_last (drop 2 t)))
    else if starts_with t (star ∷ []) && ends_with t (star ∷ []) && ltb 2 (length t)
    then italic (drop_last (drop 1 t))
    else link_or_plain t

-- `renderInline`
unfoldable pub render_inline : Text → List Styled
unfolding split_inline style_of
render_inline s = map style_of (split_inline s)

-- `handleCopy` of a table: 9 is the tabulator, 10 the newline.
unfoldable pub copy_table : TableData → Text
copy_table t = join (9 ∷ []) t.headers ++ (10 ∷ join (10 ∷ []) (map (join (9 ∷ [])) t.rows))
