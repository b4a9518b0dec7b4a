-- ===== src/Markdown/Blocks/Laws.antt =====
-- The loop over the lines in web/src/components/MarkdownRenderer.tsx ends, and covers every line.
use ophanim.Base.{
  ℕ, zero, suc, ◌+◌, ◌-◌, ◌≤◌, ◌<◌, ◌≡◌, refl, not, ◌||◌, some, List, [], ◌∷◌, Text, arith,
  Bool-cases, inl, inr, length, trim, is_empty, has_unit, split_on,
}
use ophanim.Markdown.Blocks.{
  Block, table, table_rows, begins_table, table_block, line_block, next_block, blocks_from, blocks,
}

-- The lines that a block stands for.
abbrev pub span : Block → ℕ
span (table t) = 2 + length t.rows
span _ = 1

-- The items begin at line `i`, each where the one before it ends, and end at line `n`.
abbrev pub Tiles : ℕ → List (ℕ × Block) → ℕ → Type 0
Tiles i [] n = i ≡ n
Tiles i ((key, b) ∷ items) n = (key ≡ i) × Tiles (i + span b) items n

length-table_rows :
    (ls : List Text) → length (table_rows ls).0 + length (table_rows ls).1 ≡ length ls
unfolding table_rows
length-table_rows [] = refl
length-table_rows (l ∷ ls) = elim (Bool-cases (is_empty (trim l) || not (has_unit (trim l) b'|'))) [
  | inl e ↦ rw e (omega arith)
  | inr e ↦ rw e (omega (arith, length-table_rows ls))
]

span-line_block : (raw trimmed : Text) → span (line_block raw trimmed) ≡ 1
unfolding line_block
span-line_block raw trimmed = ground arith

-- A block and the lines behind it make up the lines that were left.
span-next_block :
    (raw : Text) (rest : List Text)
    → span (next_block raw rest).0 + length (next_block raw rest).1 ≡ suc (length rest)
span-next_block raw [] = unfold next_block in omega (arith, span-line_block raw (trim raw))
span-next_block raw (next ∷ rest) = elim (Bool-cases (begins_table (trim raw) (next ∷ rest))) [
  | inl e ↦ unfold next_block table_block in rw e (omega (arith, length-table_rows rest))
  | inr e ↦ unfold next_block in rw e (omega (arith, span-line_block raw (trim raw)))
]

span_pos : (b : Block) → 1 ≤ span b
span_pos (table t) = omega arith
span_pos _ = omega arith

blocks_from-cons :
    (fuel i : ℕ) (raw : Text) (rest : List Text) (items : List (ℕ × Block))
    → blocks_from fuel (i + span (next_block raw rest).0) (next_block raw rest).1 ≡ some items
    → blocks_from (suc fuel) i (raw ∷ rest) ≡ some ((i, (next_block raw rest).0) ∷ items)
unfolding blocks_from
blocks_from-cons fuel i raw rest items e =
    let advance : suc (length rest) - length (next_block raw rest).1
        ≡ span (next_block raw rest).0 =
      omega (arith, span-next_block raw rest) in
    rw (advance, e)

-- With more fuel than lines the loop ends, and its blocks tile the lines that are left.
blocks_from_total :
    (fuel i : ℕ) (lines : List Text)
    → length lines < fuel
    → (items : List (ℕ × Block)) × (blocks_from fuel i lines ≡ some items)
      × Tiles i items (i + length lines)
unfolding blocks_from
blocks_from_total zero i lines h = elim h [ ]
blocks_from_total (suc fuel) i [] h = ([], refl, omega arith)
blocks_from_total (suc fuel) i (raw ∷ rest) h =
    let block = (next_block raw rest).0 in
    let behind = (next_block raw rest).1 in
    let whole : span block + length behind ≡ suc (length rest) = span-next_block raw rest in
    let fits : length behind < fuel = omega (arith, span_pos block) in
    let (items, ends, tiles) = blocks_from_total fuel (i + span block) behind fits in
    let total : i + span block + length behind ≡ i + suc (length rest) = omega arith in
    ((i, block) ∷ items, blocks_from-cons fuel i raw rest items ends, (refl, rw total at tiles))

-- The renderer always ends. Its blocks tile the lines of the text: the first begins at line 0,
-- each begins where the one before it ends, a table taking the lines of its header, its delimiter
-- and its rows and any other block one line, and the last one ends with the text. So no line is
-- lost or shown twice, and no two blocks share a key.
pub blocks_lem :
    (text : Text)
    → (items : List (ℕ × Block)) × (blocks text ≡ some items)
      × Tiles 0 items (length (split_on 10 text))
unfolding blocks
blocks_lem text =
    let lines = split_on 10 text in
    let (items, ends, tiles) = blocks_from_total (suc (length lines)) 0 lines (omega arith) in
    let total : 0 + length lines ≡ length lines = omega arith in (items, ends, rw total at tiles)
