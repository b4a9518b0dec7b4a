-- ===== src/Markdown/Fences/Laws.antt =====
-- Fenced code in web/src/components/MarkdownRenderer.tsx: the split and its parts.
use ophanim.Base.{
  ℕ, zero, suc, ◌<◌, ◌≡◌, sym, ap, ◌∙◌, true, false, some, List, [], ◌∷◌, ◌++◌, Text, arith,
  Bool-cases, Option-cases, inl, inr, length, length-append, append_assoc, append-nil, starts_with,
  ends_with, drop, drop_last, trim, split_on, split_on-append, join-split_on, has_unit,
  ends_with-append, drop_last-snoc,
}
use ophanim.Markdown.Fences.{
  fence, find_fence, split_fences, code_block, is_language, code_of_lines, render_part,
}

-- The parts one after the other.
abbrev pub concat : List Text → Text
concat [] = []
concat (p ∷ ps) = p ++ concat ps

starts_with-fence : (s : Text) → starts_with s fence ≡ true → s ≡ fence ++ drop 3 s
unfolding starts_with
starts_with-fence [] h = cc
starts_with-fence (a ∷ []) h = absurd (ground arith)
starts_with-fence (a ∷ b ∷ []) h = absurd (ground arith)
starts_with-fence (a ∷ b ∷ c ∷ s) h = ground arith

-- A fence that is found splits the text around it.
find_fence_lem :
    (s before behind : Text)
    → find_fence s ≡ some (before, behind)
    → s ≡ before ++ (fence ++ behind)
unfolding find_fence
find_fence_lem [] before behind h = cc
find_fence_lem (c ∷ s) before behind h = elim (Bool-cases (starts_with (c ∷ s) fence)) [
  | inl e ↦ ground (arith, starts_with-fence (c ∷ s) e)
  | inr e ↦ elim (Option-cases (find_fence s)) [
    | inl missing ↦ ground arith
    | inr ((b, r), found) ↦ ground (arith, find_fence_lem s b r found)
  ]
]

concat-three :
    (before body rest : Text) (parts : List Text)
    → concat parts ≡ rest
    → concat (before ∷ (fence ++ body ++ fence) ∷ parts)
      ≡ before ++ (fence ++ (body ++ (fence ++ rest)))
concat-three before body rest parts e = rw (← e) (simp append_assoc)

length-found :
    (s before behind : Text) → find_fence s ≡ some (before, behind) → length behind < length s
length-found s before behind h = omega (
  arith,
  ap (λ l. length l) (find_fence_lem s before behind h),
  length-append before (fence ++ behind),
)

-- With more fuel than the text is long the split ends, and its parts joined are the text.
split_fences_total :
    (fuel : ℕ) (s : Text)
    → length s < fuel
    → (parts : List Text) × (split_fences fuel s ≡ some parts) × (concat parts ≡ s)
unfolding split_fences
split_fences_total zero s h = elim h [ ]
split_fences_total (suc fuel) s h = elim (Option-cases (find_fence s)) [
  | inl missing ↦ (s ∷ [], rw (missing, split_fences), append-nil s)
  | inr ((before, behind), found) ↦ elim (Option-cases (find_fence behind)) [
    | inl missing ↦ (s ∷ [], rw (found, split_fences, missing), append-nil s)
    | inr ((body, rest), closed) ↦
        let shorter : length rest < fuel =
          omega (arith, length-found s before behind found, length-found behind body rest closed) in
        let (parts, ends, whole) = split_fences_total fuel rest shorter in
        (
          before ∷ (fence ++ body ++ fence) ∷ parts,
          rw (found, split_fences, closed, ends),
          concat-three before body rest parts whole
              ∙ (ap (λ l. before ++ (fence ++ l)) (sym (find_fence_lem behind body rest closed))
                  ∙ sym (find_fence_lem s before behind found)),
        )
  ]
]

-- Splitting a reply at its fences always ends, and the parts one after the other are the reply.
split_fences_lem :
    (s : Text)
    → (parts : List Text) × (split_fences (suc (length s)) s ≡ some parts) × (concat parts ≡ s)
split_fences_lem s = split_fences_total (suc (length s)) s (omega arith)

drop_last_three : (s : Text) → drop_last (drop_last (drop_last (s ++ fence))) ≡ s
drop_last_three s =
    let spread : s ++ fence ≡ ((s ++ b'`' ∷ []) ++ b'`' ∷ []) ++ b'`' ∷ [] = simp append_assoc in
    rw (spread, drop_last-snoc, drop_last-snoc) (drop_last-snoc s b'`')

code_of_lines_lem :
    (language code : Text)
    → is_language (trim language) ≡ true
    → has_unit language 10 ≡ false
    → code_of_lines (split_on 10 (language ++ 10 ∷ code)) ≡ code_block (trim language) code
code_of_lines_lem language code is_lang one_line =
    rw (split_on-append 10 language code one_line)
      (unfold code_of_lines in rw (is_lang, join-split_on 10 code))

-- A fenced block whose first line is a language name is shown under that language, with the lines
-- behind it as they are, if nothing of the block is trimmed away.
pub render_part-code :
    (language code : Text)
    → is_language (trim language) ≡ true
    → has_unit language 10 ≡ false
    → trim (language ++ 10 ∷ code) ≡ language ++ 10 ∷ code
    → render_part (fence ++ ((language ++ 10 ∷ code) ++ fence)) ≡ code_block (trim language) code
render_part-code language code is_lang one_line trimmed =
    let body = language ++ 10 ∷ code in
    let closed : ends_with (fence ++ (body ++ fence)) fence ≡ true =
      ends_with-append (fence ++ body) fence in
    unfold render_part starts_with in
    rw (closed, drop_last_three body, trimmed) (code_of_lines_lem language code is_lang one_line)
