-- ===== src/Markdown/Inline/Copy.antt =====
-- A copied table can be read back (web/src/components/MarkdownRenderer.tsx).
use ophanim.Base.{
  ℕ, ◌≡◌, refl, ap, ◌∙◌, ◌≢◌, Bool, true, false, not, ◌&&◌, ◌||◌, List, [], ◌∷◌, ◌++◌, Text, arith,
  map, join, split_on, split_on-join, split_on-append, has_unit, all, all_imp,
}
use ophanim.Markdown.Blocks.{TableData}
use ophanim.Markdown.Inline.{copy_table}

-- A cell without a tabulator and a newline, and a row of such cells that is not empty.
abbrev pub is_cell : Text → Bool
is_cell c = not (has_unit c 9) && not (has_unit c 10)

abbrev pub is_row : List Text → Bool
is_row [] = false
is_row (c ∷ cs) = all is_cell (c ∷ cs)

has_unit-append : (d : ℕ) (s t : Text) → has_unit (s ++ t) d ≡ (has_unit s d || has_unit t d)
unfolding has_unit
has_unit-append d [] t = refl
has_unit-append d (a ∷ s) t = ground (arith, has_unit-append d s t)

has_unit_tab : (s : Text) → has_unit (9 ∷ s) 10 ≡ has_unit s 10
unfolding has_unit
has_unit_tab s = refl

has_unit-join : (cs : List Text) → all is_cell cs ≡ true → has_unit (join (9 ∷ []) cs) 10 ≡ false
unfolding join
has_unit-join [] h = unfold has_unit in refl
has_unit-join (c ∷ []) h = ground arith
has_unit-join (c ∷ d ∷ cs) h =
    let here : has_unit c 10 ≡ false = ground arith in
    let tail : has_unit (join (9 ∷ []) (d ∷ cs)) 10 ≡ false =
      has_unit-join (d ∷ cs) (ground arith) in
    has_unit-append 10 c (9 ∷ join (9 ∷ []) (d ∷ cs))
    ∙ rw here (has_unit_tab (join (9 ∷ []) (d ∷ cs)) ∙ tail)

split-row : (r : List Text) → is_row r ≡ true → split_on 9 (join (9 ∷ []) r) ≡ r
split-row [] h = cc
split-row (c ∷ cs) h =
    split_on-join 9 (c ∷ cs) (λ e. cc)
      (all_imp is_cell (λ p. not (has_unit p 9)) (c ∷ cs) (λ p k. ground arith) h)

is_row-cells : (r : List Text) → is_row r ≡ true → all is_cell r ≡ true
is_row-cells [] h = cc
is_row-cells (c ∷ cs) h = h

lines_ok :
    (rs : List (List Text))
    → all is_row rs ≡ true
    → all (λ p. not (has_unit p 10)) (map (join (9 ∷ [])) rs) ≡ true
lines_ok [] h = refl
lines_ok (r ∷ rs) h =
    rw (has_unit-join r (is_row-cells r (ground arith))) (lines_ok rs (ground arith))

map-ne-nil : {A B : Type 0} (f : A → B) (xs : List A) → xs ≢ [] → map f xs ≢ []
map-ne-nil f [] ne e = ne refl
map-ne-nil f (x ∷ xs) ne e = cc

split-rows :
    (rs : List (List Text)) → all is_row rs ≡ true → map (split_on 9) (map (join (9 ∷ [])) rs) ≡ rs
split-rows [] h = refl
split-rows (r ∷ rs) h = rw (split-row r (ground arith), split-rows rs (ground arith)) refl

-- The text that is copied from a table can be read back, as the header and the rows: the lines are
-- split at the newlines, and their cells at the tabulators. The table has a row, no row and no
-- header is without cells, and no cell holds a tabulator or a newline.
pub split-copy_table :
    (t : TableData)
    → is_row t.headers ≡ true
    → t.rows ≢ []
    → all is_row t.rows ≡ true
    → map (split_on 9) (split_on 10 (copy_table t)) ≡ t.headers ∷ t.rows
split-copy_table t head ne rows =
    let lines = map (join (9 ∷ [])) t.rows in
    let cut : split_on 10 (copy_table t) ≡ join (9 ∷ []) t.headers ∷ lines =
      unfold copy_table in
      (split_on-append 10 (join (9 ∷ []) t.headers) (join (10 ∷ []) lines)
          (has_unit-join t.headers (is_row-cells t.headers head))
        ∙ ap (λ l. join (9 ∷ []) t.headers ∷ l)
            (split_on-join 10 lines (map-ne-nil (join (9 ∷ [])) t.rows ne)
              (lines_ok t.rows rows))) in
    rw (cut, split-row t.headers head, split-rows t.rows rows) refl
