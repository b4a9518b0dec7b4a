-- ===== src/Markdown/Inline/Laws.antt =====
-- The split of a line, and a copied table
-- (web/src/components/MarkdownRenderer.tsx).
use ophanim.Base.{
  ℕ, zero, suc, ◌≡◌, refl, ap, ◌∙◌, inl, inr, true, not, ◌||◌, Option, none, some, List, [], ◌∷◌,
  ◌++◌, Text, codes, arith, ◌==◌, ==_iff, Bool-cases, append_assoc, append-nil, drop, length,
  starts_with, is_empty, cons_piece,
}
use ophanim.Markdown.Fences.Laws.{concat}
use ophanim.Markdown.Inline.{
  span_to, enclosed, or_match, link_target, bold_at, link_at, match_token, split_from, split_inline,
  star, tick,
}

starts_with-drop : (s p : Text) → starts_with s p ≡ true → p ++ drop (length p) s ≡ s
unfolding starts_with
starts_with-drop s [] h = refl
starts_with-drop [] (b ∷ p) h = cc
starts_with-drop (a ∷ s) (b ∷ p) h =
    let same : a ≡ b = ground arith in
    let rest : starts_with s p ≡ true = ground arith in
    rw same (ap (λ l. b ∷ l) (starts_with-drop s p rest))

span_to-append : (c : ℕ) (s : Text) → (span_to c s).0 ++ (span_to c s).1 ≡ s
unfolding span_to
span_to-append c [] = refl
span_to-append c (a ∷ s) = elim (Bool-cases (a == c)) [
  | inl e ↦ rw e refl
  | inr e ↦ rw e (ap (λ l. a ∷ l) (span_to-append c s))
]

-- What a match takes away is what it returns.
abbrev Splits : Text → Option (Text × Text) → Type 0
Splits s none = Unit
Splits s (some (token, rest)) = token ++ rest ≡ s

glue :
    (mark x close d t s : Text)
    → close ++ d ≡ t
    → x ++ t ≡ s
    → (mark ++ (x ++ close)) ++ d ≡ mark ++ s
glue mark x close d t s h k =
    append_assoc mark (x ++ close) d
    ∙ ap (λ l. mark ++ l) (append_assoc x close d ∙ (ap (λ l. x ++ l) h ∙ k))

enclosed-Splits : (c : ℕ) (mark close s : Text) → Splits (mark ++ s) (enclosed c mark close s)
unfolding enclosed
enclosed-Splits c mark close s =
    elim (Bool-cases (is_empty (span_to c s).0 || not (starts_with (span_to c s).1 close))) [
      | inl e ↦ rw e tt
      | inr e ↦
          let closed : starts_with (span_to c s).1 close ≡ true = ground arith in
          rw e (
            glue mark (span_to c s).0 close (drop (length close) (span_to c s).1) (span_to c s).1 s
              (starts_with-drop (span_to c s).1 close closed) (span_to-append c s))
    ]

or_match-Splits :
    (s : Text) (m n : Option (Text × Text)) → Splits s m → Splits s n → Splits s (or_match m n)
unfolding or_match
or_match-Splits s none n h k = k
or_match-Splits s (some m) n h k = h

bold_at-Splits : (s : Text) → Splits (star ∷ s) (bold_at s)
unfolding bold_at
bold_at-Splits [] = tt
bold_at-Splits (b ∷ t) = elim (Bool-cases (b == star)) [
  | inl e ↦
      rw (e, (==_iff b star).0 e) (enclosed-Splits star (star ∷ star ∷ []) (star ∷ star ∷ []) t)
  | inr e ↦ rw e tt
]

link_target-Splits :
    (s : Text) (m : Option (Text × Text))
    → Splits s m
    → Splits s (elim m [ none ↦ none | some (label, t) ↦ link_target label t ])
unfolding link_target
link_target-Splits s none h = tt
link_target-Splits s (some (label, t)) h = rw (← h) (enclosed-Splits 41 label (codes ")") t)

link_at-Splits : (s : Text) → Splits (91 ∷ s) (link_at s)
unfolding link_at
link_at-Splits s = link_target-Splits (91 ∷ s) _ (enclosed-Splits 93 (codes "[") (codes "](") s)

match_token-Splits : (s : Text) → Splits s (match_token s)
unfolding match_token
match_token-Splits [] = tt
match_token-Splits (a ∷ s) = elim (Bool-cases (a == tick)) [
  | inl e ↦ rw (e, (==_iff a tick).0 e) (enclosed-Splits tick (tick ∷ []) (tick ∷ []) s)
  | inr e ↦ elim (Bool-cases (a == star)) [
    | inl f ↦
        rw (e, f, (==_iff a star).0 f)
          (or_match-Splits (star ∷ s) (bold_at s) _ (bold_at-Splits s)
            (enclosed-Splits star (star ∷ []) (star ∷ []) s))
    | inr f ↦ elim (Bool-cases (a == 91)) [
      | inl g ↦ rw (e, f, g, (==_iff a 91).0 g) (link_at-Splits s)
      | inr g ↦ rw (e, f, g) tt
    ]
  ]
]

concat-cons_piece : (a : ℕ) (ps : List Text) → concat (cons_piece a ps) ≡ a ∷ concat ps
concat-cons_piece a [] = refl
concat-cons_piece a (p ∷ ps) = refl

-- One step of the split, for a match or none.
concat-step :
    (n a : ℕ) (s : Text) (m : Option (Text × Text))
    → Splits (a ∷ s) m
    → ((t : Text) → concat (split_from n t) ≡ t)
    → concat (elim m [
      | none ↦ cons_piece a (split_from n s)
      | some (token, rest) ↦ [] ∷ token ∷ split_from n rest
    ])
      ≡ a ∷ s
concat-step n a s none h more = concat-cons_piece a (split_from n s) ∙ ap (λ l. a ∷ l) (more s)
concat-step n a s (some (token, rest)) h more = ap (λ l. token ++ l) (more rest) ∙ h

concat-split_from : (n : ℕ) (s : Text) → concat (split_from n s) ≡ s
unfolding split_from
concat-split_from zero s = append-nil s
concat-split_from (suc n) [] = refl
concat-split_from (suc n) (a ∷ s) =
    concat-step n a s (match_token (a ∷ s)) (match_token-Splits (a ∷ s)) (concat-split_from n)

-- No letter of a line is lost or moved when it is split at its styled pieces: the pieces, one after
-- the other, are the line, whatever marks stand in it.
concat-split_inline : (s : Text) → concat (split_inline s) ≡ s
unfolding split_inline
concat-split_inline s = concat-split_from (length s) s
