-- ===== src/Markdown/Fences.antt =====
-- Fenced code in a reply (web/src/components/MarkdownRenderer.tsx): the split of the text, and what
-- is shown for each part.
pub mod Laws
pub mod Written
use ophanim.Base.{
  ℕ, zero, suc, Bool, true, false, not, ◌&&◌, ◌||◌, Option, none, some, List, [], ◌∷◌, ◌++◌, Text,
  codes, trim, starts_with, ends_with, drop, drop_last, split_on, join, is_empty, all, leb, ◌==◌,
  if◌then◌else◌, or_default,
}

abbrev pub fence : Text
fence = b'`' ∷ b'`' ∷ b'`' ∷ []

-- The text in front of the first fence, and the text behind it.
unfoldable pub find_fence : Text → Option (Text × Text)
unfolding starts_with
find_fence [] = none
find_fence (c ∷ s) =
    let later = find_fence s in
    if starts_with (c ∷ s) fence
    then some ([], drop 3 (c ∷ s))
    else elim later [ none ↦ none | some (before, behind) ↦ some (c ∷ before, behind) ]

-- `content.split(/(```[\s\S]*?```)/g)`: each fence is closed by the next one, and an unclosed one
-- stays in the last part. `none` means that the fuel ran out.
unfoldable pub split_fences : ℕ → Text → Option (List Text)
unfolding find_fence
split_fences zero s = none
split_fences (suc fuel) s = elim (find_fence s) [
  | none ↦ some (s ∷ [])
  | some (before, behind) ↦ elim (find_fence behind) [
    | none ↦ some (s ∷ [])
    | some (body, rest) ↦
        let more = split_fences fuel rest in
        elim more [ none ↦ none | some parts ↦ some (before ∷ (fence ++ body ++ fence) ∷ parts) ]
  ]
]

pub data Rendered : Type 0 where
  code_block : Text → Text → Rendered
  paragraph : Text → Rendered

-- `/[a-zA-Z0-9_-]/`
abbrev is_language_unit : ℕ → Bool
is_language_unit c =
    (leb b'a' c && leb c b'z')
    || (leb b'A' c && leb c b'Z')
    || (leb b'0' c && leb c b'9')
    || (c == b'_')
    || (c == b'-')

-- `/^[a-zA-Z0-9_-]+$/.test(s)`
unfoldable pub is_language : Text → Bool
is_language s = not (is_empty s) && all is_language_unit s

-- `lines[0]`
unfoldable pub first_line : List Text → Text
first_line [] = []
first_line (l ∷ ls) = l

unfoldable pub later_lines : List Text → List Text
later_lines [] = []
later_lines (l ∷ ls) = ls

unfoldable pub code_of_lines : List Text → Rendered
unfolding is_language first_line later_lines
code_of_lines lines =
    let first = trim (first_line lines) in
    if is_language first
    then code_block first (join (10 ∷ []) (later_lines lines))
    else code_block (codes "text") (join (10 ∷ []) lines)

-- What is shown for one part.
unfoldable pub render_part : Text → Rendered
unfolding code_of_lines
render_part part =
    if starts_with part fence && ends_with part fence
    then code_of_lines (split_on 10 (trim (drop_last (drop_last (drop_last (drop 3 part))))))
    else paragraph part
