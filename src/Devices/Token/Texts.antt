-- ===== src/Devices/Token/Texts.antt =====
-- Texts without white space and without a separator, for the token of a Proxmox device
-- (web/src/pages/DevicesView.tsx).
use mathlib.Core.List.{reverse, reverse-reverse, reverse-cons}
use ophanim.Base.{
  ℕ, ◌≡◌, refl, ap, ◌∙◌, ◌≢◌, Bool, true, false, not, ◌&&◌, ◌||◌, [], ◌∷◌, ◌++◌, Text, trim,
  is_space, drop_while, all, has_unit, starts_with, or_text, arith,
}

-- A text without white space.
abbrev pub is_solid : Text → Bool
is_solid s = all (λ c. not (is_space c)) s

pub all-append : (p : ℕ → Bool) (s t : Text) → all p (s ++ t) ≡ (all p s && all p t)
all-append p [] t = refl
all-append p (c ∷ s) t = ground (arith, all-append p s t)

all-reverse : (p : ℕ → Bool) (s : Text) → all p (reverse s) ≡ all p s
all-reverse p [] = refl
all-reverse p (c ∷ s) =
    ap (all p) (reverse-cons c s)
    ∙ (all-append p (reverse s) (c ∷ []) ∙ ground (arith, all-reverse p s))

drop_while-solid : (s : Text) → is_solid s ≡ true → drop_while is_space s ≡ s
unfolding drop_while
drop_while-solid [] h = refl
drop_while-solid (c ∷ s) h = ground arith

pub trim-solid : (s : Text) → is_solid s ≡ true → trim s ≡ s
unfolding trim
trim-solid s h =
    rw (drop_while-solid s h)
      (rw (drop_while-solid (reverse s) (all-reverse _ s ∙ h)) (reverse-reverse s))

pub has_unit-append : (s t : Text) (d : ℕ) → has_unit (s ++ t) d ≡ (has_unit s d || has_unit t d)
unfolding has_unit
has_unit-append [] t d = refl
has_unit-append (c ∷ s) t d = ground (arith, has_unit-append s t d)

-- What is in front of an `@` does not begin with a word that ends in `=`.
pub starts_with-apart :
    (u r p : Text)
    → has_unit u b'=' ≡ false
    → has_unit p b'@' ≡ false
    → starts_with (u ++ b'@' ∷ r) (p ++ b'=' ∷ []) ≡ false
unfolding starts_with has_unit
starts_with-apart [] r [] h k = refl
starts_with-apart [] r (x ∷ p) h k = ground arith
starts_with-apart (a ∷ u) r [] h k = ground arith
starts_with-apart (a ∷ u) r (x ∷ p) h k = ground (arith, starts_with-apart u r p)

pub or_text-name : (s d : Text) → s ≢ [] → or_text s d ≡ s
or_text-name [] d ne = absurd (ne refl)
or_text-name (c ∷ s) d ne = refl
