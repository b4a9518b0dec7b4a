-- ===== src/Base/Split.antt =====
-- `split` at one code unit and `join`, each against the other; the ends of a text.
use Prim.Native.Nat.{ℕ}
use mathlib.Core.Path.{◌≡◌, refl, sym, ap, ◌∙◌}
use mathlib.Core.Logic.{◌≢◌, inl, inr}
use mathlib.Core.Bool.{true, false, not}
use mathlib.Core.List.{List, [], ◌∷◌, ◌++◌, reverse, reverse-append}
use native.Mathlib.Omega.{arith}
use ophanim.Base.Tests.{◌==◌, ==_iff, Bool-cases}
use ophanim.Base.Lists.{all}
use ophanim.Base.Strings.{
  Text, split_on, cons_piece, join, has_unit, starts_with, ends_with, drop_last,
}

module _ (d : ℕ) where
  pub split_on-absent : (c : Text) → has_unit c d ≡ false → split_on d c ≡ c ∷ []
  unfolding split_on has_unit
  split_on-absent [] h = refl
  split_on-absent (a ∷ c) h = ground (arith, split_on-absent c)

  pub split_on-append :
      (c s : Text) → has_unit c d ≡ false → split_on d (c ++ d ∷ s) ≡ c ∷ split_on d s
  unfolding split_on has_unit
  split_on-append [] s h = ground arith
  split_on-append (a ∷ c) s h = ground (arith, split_on-append c s)

  cons_piece-ne-nil : (c : ℕ) (ps : List Text) → cons_piece c ps ≢ []
  cons_piece-ne-nil c [] e = cc
  cons_piece-ne-nil c (p ∷ ps) e = cc

  pub split_on-ne-nil : (s : Text) → split_on d s ≢ []
  unfolding split_on
  split_on-ne-nil [] e = cc
  split_on-ne-nil (c ∷ s) e = elim (Bool-cases (c == d)) [
    | inl same ↦ ground arith
    | inr other ↦ cons_piece-ne-nil c (split_on d s) (ground arith)
  ]

  join-cons_piece :
      (c : ℕ) (ps : List Text) → ps ≢ [] → join (d ∷ []) (cons_piece c ps) ≡ c ∷ join (d ∷ []) ps
  unfolding join
  join-cons_piece c [] ne = absurd (ne refl)
  join-cons_piece c (p ∷ []) ne = refl
  join-cons_piece c (p ∷ q ∷ ps) ne = refl

  join-empty_piece : (ps : List Text) → ps ≢ [] → join (d ∷ []) ([] ∷ ps) ≡ d ∷ join (d ∷ []) ps
  unfolding join
  join-empty_piece [] ne = absurd (ne refl)
  join-empty_piece (p ∷ ps) ne = refl

  -- Joining the pieces gives the text back.
  pub join-split_on : (s : Text) → join (d ∷ []) (split_on d s) ≡ s
  unfolding split_on
  join-split_on [] = unfold join in refl
  join-split_on (c ∷ s) = elim (Bool-cases (c == d)) [
    | inl same ↦ rw same (
        join-empty_piece (split_on d s) (split_on-ne-nil s)
        ∙ (ap (λ l. d ∷ l) (join-split_on s) ∙ ap (λ x. x ∷ s) (sym ((==_iff c d).0 same))))
    | inr other ↦
        rw other
          (join-cons_piece c (split_on d s) (split_on-ne-nil s) ∙ ap (λ l. c ∷ l) (join-split_on s))
  ]

-- Splitting what was joined gives the pieces back, if none of them holds the separator.
pub split_on-join :
    (d : ℕ) (ps : List Text)
    → ps ≢ []
    → all (λ p. not (has_unit p d)) ps ≡ true
    → split_on d (join (d ∷ []) ps) ≡ ps
unfolding join
split_on-join d [] ne h = absurd (ne refl)
split_on-join d (p ∷ []) ne h = split_on-absent d p (ground arith)
split_on-join d (p ∷ q ∷ ps) ne h =
    split_on-append d p (join (d ∷ []) (q ∷ ps)) (ground arith)
    ∙ ap (λ l. p ∷ l) (split_on-join d (q ∷ ps) (λ e. cc) (ground arith))

pub starts_with-nil : (s : Text) → starts_with s [] ≡ true
unfolding starts_with
starts_with-nil [] = refl
starts_with-nil (c ∷ s) = refl

starts_with-append : (p s : Text) → starts_with (p ++ s) p ≡ true
unfolding starts_with
starts_with-append [] s = starts_with-nil s
starts_with-append (c ∷ p) s = ground (arith, starts_with-append p s)

-- A text that is built from its end has that end.
pub ends_with-append : (s p : Text) → ends_with (s ++ p) p ≡ true
unfolding ends_with
ends_with-append s p =
    ap (λ r. starts_with r (reverse p)) (reverse-append s p)
    ∙ starts_with-append (reverse p) (reverse s)

pub drop_last-snoc : (s : Text) (c : ℕ) → drop_last (s ++ c ∷ []) ≡ s
unfolding drop_last
drop_last-snoc [] c = refl
drop_last-snoc (a ∷ []) c = refl
drop_last-snoc (a ∷ b ∷ s) c = ap (λ l. a ∷ l) (drop_last-snoc (b ∷ s) c)
