-- ===== src/Markdown/Fences/Written.antt =====
-- A reply that is written with fenced code is shown as it was written
-- (web/src/components/MarkdownRenderer.tsx).
use ophanim.Base.{
  ℕ, zero, suc, ◌≤◌, ◌<◌, ◌≡◌, refl, true, false, none, some, List, [], ◌∷◌, ◌++◌, map, Text, arith,
  length, length-append, has_unit, starts_with, trim,
}
use ophanim.Markdown.Fences.{
  fence, find_fence, split_fences, Rendered, code_block, paragraph, is_language, render_part,
}
use ophanim.Markdown.Fences.Laws.{render_part-code}

-- A stretch of text with the fenced code behind it.
pub record Block : Type 0 where
  pub prose : Text
  pub language : Text
  pub code : Text

abbrev pub body_of : Block → Text
body_of b = b.language ++ 10 ∷ b.code

-- No back-tick stands in the block, its language is a name on one line, and nothing of the code
-- would be trimmed away.
pub record IsClean (b : Block) : Type 0 where
  pub plain_prose : has_unit b.prose b'`' ≡ false
  pub plain_body : has_unit (body_of b) b'`' ≡ false
  pub is_named : is_language (trim b.language) ≡ true
  pub one_line : has_unit b.language 10 ≡ false
  pub untrimmed : trim (body_of b) ≡ body_of b

abbrev pub AllClean : List Block → Type 0
AllClean [] = Unit
AllClean (b ∷ bs) = IsClean b × AllClean bs

-- The reply: each block's text and its code between fences, and the text behind the last one.
abbrev pub written : List Block → Text → Text
written [] tail = tail
written (b ∷ bs) tail = b.prose ++ (fence ++ (body_of b ++ (fence ++ written bs tail)))

-- What is to be shown of it.
abbrev pub shown : List Block → Text → List Rendered
shown [] tail = paragraph tail ∷ []
shown (b ∷ bs) tail = paragraph b.prose ∷ code_block (trim b.language) b.code ∷ shown bs tail

abbrev parts_of : List Block → Text → List Text
parts_of [] tail = tail ∷ []
parts_of (b ∷ bs) tail = b.prose ∷ (fence ++ body_of b ++ fence) ∷ parts_of bs tail

find_fence-plain : (s : Text) → has_unit s b'`' ≡ false → find_fence s ≡ none
unfolding find_fence has_unit starts_with
find_fence-plain [] h = refl
find_fence-plain (c ∷ s) h = ground (arith, find_fence-plain s)

find_fence-append :
    (before behind : Text)
    → has_unit before b'`' ≡ false
    → find_fence (before ++ (fence ++ behind)) ≡ some (before, behind)
unfolding find_fence has_unit starts_with
find_fence-append [] behind h = refl
find_fence-append (c ∷ before) behind h = ground (arith, find_fence-append before behind)

render_part-plain : (s : Text) → has_unit s b'`' ≡ false → render_part s ≡ paragraph s
unfolding render_part has_unit starts_with
render_part-plain [] h = refl
render_part-plain (c ∷ s) h = ground arith

split_fences-written :
    (fuel : ℕ) (bs : List Block) (tail : Text)
    → length bs < fuel
    → AllClean bs
    → has_unit tail b'`' ≡ false
    → split_fences fuel (written bs tail) ≡ some (parts_of bs tail)
unfolding split_fences
split_fences-written zero bs tail h clean plain = absurd (omega (arith, h))
split_fences-written (suc fuel) [] tail h clean plain =
    rw (find_fence-plain tail plain, split_fences) refl
split_fences-written (suc fuel) (b ∷ bs) tail h clean plain =
    rw
      (
        find_fence-append b.prose (body_of b ++ (fence ++ written bs tail)) clean.0.plain_prose,
        split_fences,
        find_fence-append (body_of b) (written bs tail) clean.0.plain_body,
        split_fences-written fuel bs tail (omega (arith, h)) clean.1 plain,
      )
      refl

render_part-parts_of :
    (bs : List Block) (tail : Text)
    → AllClean bs
    → has_unit tail b'`' ≡ false
    → map render_part (parts_of bs tail) ≡ shown bs tail
render_part-parts_of [] tail clean plain = rw (render_part-plain tail plain) refl
render_part-parts_of (b ∷ bs) tail clean plain =
    rw
      (
        render_part-plain b.prose clean.0.plain_prose,
        render_part-code b.language b.code clean.0.is_named clean.0.one_line clean.0.untrimmed,
        render_part-parts_of bs tail clean.1 plain,
      )
      refl

length-written : (bs : List Block) (tail : Text) → length bs ≤ length (written bs tail)
length-written [] tail = omega arith
length-written (b ∷ bs) tail = omega (
  arith,
  length-written bs tail,
  length-append b.prose (fence ++ (body_of b ++ (fence ++ written bs tail))),
  length-append (body_of b) (fence ++ written bs tail),
)

-- A reply of stretches of text and fenced code is split and shown as it was written: as many
-- paragraphs and blocks of code, in their order, each block under its language and with its lines
-- unchanged. No back-tick may stand in the text or the code, each language is a name on the first
-- line of its code, and the code has no white space that would be trimmed away. The split has
-- enough fuel.
pub render_part-written :
    (bs : List Block) (tail : Text)
    → AllClean bs
    → has_unit tail b'`' ≡ false
    → (parts : List Text) × (split_fences (suc (length (written bs tail))) (written bs tail)
        ≡ some parts)
      × (map render_part parts ≡ shown bs tail)
render_part-written bs tail clean plain = (
  parts_of bs tail,
  split_fences-written (suc (length (written bs tail))) bs tail
      (omega (arith, length-written bs tail)) clean plain,
  render_part-parts_of bs tail clean plain,
)
