-- ===== src/Logs/Rows/Laws.antt =====
-- The level filters against the colours of the lines, and the lines of the download
-- (web/src/pages/LogsView.tsx).
use ophanim.Base.{
  ◌≡◌, refl, sym, ◌∙◌, Bool, true, false, not, ◌&&◌, List, [], ◌∷◌, map, Text, arith, if◌then◌else◌,
  filter, filter-filter, all_imp, all-filter, split_on, has_unit, all, split_on-join,
}
use ophanim.Types.{LogEntry}
use ophanim.Logs.Rows.{
  all_levels, errors_only, warnings_only, is_shown, filtered_logs, LineTint, crimson, terracotta,
  emerald, ink, line_tint, message_tint, is_error, is_warn, passes_errors, passes_warnings,
  download_line, download_text,
}

abbrev pub is_crimson : LineTint → Bool
is_crimson crimson = true
is_crimson terracotta = false
is_crimson emerald = false
is_crimson ink = false

abbrev pub is_emerald : LineTint → Bool
is_emerald crimson = false
is_emerald terracotta = false
is_emerald emerald = true
is_emerald ink = false

filter_cong :
    {A : Type 0} (p q : A → Bool) (xs : List A) → ((x : A) → p x ≡ q x) → filter p xs ≡ filter q xs
filter_cong p q [] h = refl
filter_cong p q (x ∷ xs) h = ground (arith, h x, filter_cong p q xs h)

-- The filters agree with the colours, though the source writes their tests out twice. Of the lines
-- that hold the search text, ERR shows exactly those with a crimson tag; each line that WRN shows
-- is tagged as a warning or an error; and of the lines that hold the search text, those with an
-- emerald tag are those that neither filter shows. The message has the colour of the tag, but
-- beside an emerald tag it has the colour of plain text.
pub filtered_logs-line_tint :
    (sought : Text) (ls : List LogEntry) (l : LogEntry)
    → (filtered_logs sought errors_only ls
        ≡ filter (λ m. is_crimson (line_tint m)) (filtered_logs sought all_levels ls))
      × (all (λ m. not (is_emerald (line_tint m))) (filtered_logs sought warnings_only ls) ≡ true)
      × ((is_shown sought all_levels l && is_emerald (line_tint l)) ≡ (
          is_shown sought all_levels l
          && (not (is_shown sought errors_only l) && not (is_shown sought warnings_only l))))
      × (message_tint l ≡ (if is_emerald (line_tint l) then ink else line_tint l))
unfolding filtered_logs is_shown line_tint message_tint is_error is_warn passes_errors
    passes_warnings
filtered_logs-line_tint sought ls l = (
  filter_cong _ _ ls (λ m. ground arith)
      ∙ sym (filter-filter (λ m. is_crimson (line_tint m)) (is_shown sought all_levels) ls),
  all_imp (is_shown sought warnings_only) (λ m. not (is_emerald (line_tint m)))
      (filtered_logs sought warnings_only ls) (λ m h. ground arith)
      (all-filter (is_shown sought warnings_only) ls),
  ground arith,
  ground arith,
)

all-map :
    {A B : Type 0} (p : B → Bool) (f : A → B) (xs : List A)
    → all p (map f xs) ≡ all (λ x. p (f x)) xs
all-map p f [] = refl
all-map p f (x ∷ xs) = rw (all-map p f xs) refl

-- The download has one line for each entry, in their order, whatever is searched for: splitting it
-- at the newlines gives the entries' lines, if there are entries and no line holds a newline.
split_on-download_text :
    (to_iso : Text → Text) (l : LogEntry) (ls : List LogEntry)
    → all (λ m. not (has_unit (download_line to_iso m) 10)) (l ∷ ls) ≡ true
    → split_on 10 (download_text to_iso (l ∷ ls)) ≡ map (download_line to_iso) (l ∷ ls)
unfolding download_text
split_on-download_text to_iso l ls h =
    split_on-join 10 (map (download_line to_iso) (l ∷ ls)) (λ e. cc)
      (all-map (λ p. not (has_unit p 10)) (download_line to_iso) (l ∷ ls) ∙ h)
