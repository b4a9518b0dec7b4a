-- ===== src/Markdown/Copied.antt =====
-- The copy buttons of code and tables: the clipboard, the mark and its timers
-- (web/src/components/MarkdownRenderer.tsx).
use ophanim.Base.{
  ℕ, suc, ◌+◌, ◌-◌, ◌≡◌, refl, ◌≢◌, ◌⊎◌, inl, inr, Bool, true, false, Text, codes, arith, length,
  if◌then◌else◌,
}
use ophanim.Markdown.Blocks.{TableData}
use ophanim.Markdown.Inline.{copy_table}

-- The mark of one block, with the number of timers that will clear it, beside the clipboard.
pub record CopyState : Type 0 where
  pub clipboard : Text
  pub copied : Bool
  pub timers : ℕ

-- `handleCopy` of a block of code.
unfoldable pub copy_code : Text → CopyState → CopyState
copy_code code s = record { clipboard = code; copied = true; timers = s.timers + 1 }

-- `handleCopy` of a table.
unfoldable pub copy_block : TableData → CopyState → CopyState
copy_block t s = record { clipboard = copy_table t; copied = true; timers = s.timers + 1 }

-- A timer runs out: each clears the mark, the one of a later copy too.
unfoldable pub end_copied : CopyState → CopyState
end_copied s = record s { copied = false; timers = s.timers - 1 }

unfoldable pub copy_label : CopyState → Text
copy_label s = if s.copied then codes "COPIED" else codes "COPY"

-- The number in the title of a table.
unfoldable pub row_count : TableData → ℕ
row_count t = length t.rows

data CopyStep (s : CopyState) : CopyState → Type 0 where
  code_copied : (code : Text) → CopyStep s (copy_code code s)
  table_copied : (t : TableData) → CopyStep s (copy_block t s)
  ended : (n : ℕ) → s.timers ≡ suc n → CopyStep s (end_copied s)

data CopyReach (s : CopyState) : CopyState → Type 0 where
  start : CopyReach s s
  after : {t u : CopyState} → CopyReach s t → CopyStep t u → CopyReach s u

IsTimed : CopyState → Type 0
IsTimed s = (s.copied ≡ false) ⊎ (s.timers ≢ 0)

-- Whatever is copied on a block without a mark and whichever timers run out, the mark is off when
-- no timer runs.
CopyReach-IsTimed :
    (clipboard : Text) {s : CopyState}
    → CopyReach (record { clipboard = clipboard; copied = false; timers = 0 }) s
    → IsTimed s
unfolding IsTimed
CopyReach-IsTimed clipboard start = inl refl
CopyReach-IsTimed clipboard (after r step) = go step
  where
    go : {t u : CopyState} → CopyStep t u → (u.copied ≡ false) ⊎ (u.timers ≢ 0)
    go (code_copied code) = unfold copy_code in inr (λ e. omega (arith, e))
    go (table_copied t) = unfold copy_block in inr (λ e. omega (arith, e))
    go (ended n e) = unfold end_copied in inl refl
