-- ===== src/Base/Strings.antt =====
-- Strings as lists of UTF-16 code units, and the string methods that the source calls.
-- `to_lower` maps the ASCII letters only; the source's texts outside ASCII have no case here.
use Prim.Native.Nat.{ℕ, ◌+◌, ◌-◌}
use Prim.Native.Char.{code}
use Prim.Native.String.{String}
use mathlib.Core.Path.{◌≡◌, refl}
use mathlib.Core.Logic.{◌↔◌, inl, inr}
use mathlib.Core.Bool.{Bool, true, false, ◌&&◌, ◌||◌}
use mathlib.Core.List.{List, [], ◌∷◌, ◌++◌, map, reverse}
use native.Mathlib.Omega.{arith}
use ophanim.Base.Tests.{◌==◌, leb, if◌then◌else◌, Bool-cases}
use ophanim.Base.Lists.{any}

abbrev pub Text : Type 0
Text = List ℕ

-- The code units of an ASCII literal.
abbrev pub codes : String → Text
codes String.[] = []
codes (String.◌∷◌ c s) = code c ∷ codes s

-- `s === t`
unfoldable pub text_eq : Text → Text → Bool
text_eq [] [] = true
text_eq (a ∷ s) (b ∷ t) = (a == b) && text_eq s t
text_eq _ _ = false

pub text_eq_iff : (s t : Text) → (text_eq s t ≡ true) ↔ (s ≡ t)
unfolding text_eq
text_eq_iff [] [] = (λ _. refl, λ _. refl)
text_eq_iff [] (b ∷ t) = (λ e. cc, λ e. cc)
text_eq_iff (a ∷ s) [] = (λ e. cc, λ e. cc)
text_eq_iff (a ∷ s) (b ∷ t) = ground (arith, text_eq_iff s t)

pub text_eq_refl : (s : Text) → text_eq s s ≡ true
text_eq_refl s = (text_eq_iff s s).1 refl

pub text_eq_sym : (s t : Text) → text_eq s t ≡ text_eq t s
text_eq_sym s t = ground (arith, text_eq_iff s t, text_eq_iff t s)

-- `!s`
abbrev pub is_empty : Text → Bool
is_empty [] = true
is_empty (c ∷ s) = false

-- `s || d`
abbrev pub or_text : Text → Text → Text
or_text [] d = d
or_text (c ∷ s) d = c ∷ s

-- `xs.includes(s)` of an array of strings
abbrev pub has_text : List Text → Text → Bool
has_text xs s = any (text_eq s) xs

-- `s.startsWith(p)`
unfoldable pub starts_with : Text → Text → Bool
starts_with s [] = true
starts_with [] (b ∷ p) = false
starts_with (a ∷ s) (b ∷ p) = (a == b) && starts_with s p

-- `s.endsWith(p)`
unfoldable pub ends_with : Text → Text → Bool
ends_with s p = starts_with (reverse s) (reverse p)

-- `s.includes(p)`
unfoldable pub includes : Text → Text → Bool
unfolding starts_with
includes [] p = starts_with [] p
includes (a ∷ s) p = starts_with (a ∷ s) p || includes s p

-- `s.includes(c)` for one code unit
unfoldable pub has_unit : Text → ℕ → Bool
has_unit s c = any (λ a. a == c) s

lower_unit : ℕ → ℕ
lower_unit c = if leb 65 c && leb c 90 then c + 32 else c

-- `s.toLowerCase()`
unfoldable pub to_lower : Text → Text
unfolding lower_unit
to_lower s = map lower_unit s

upper_unit : ℕ → ℕ
upper_unit c = if leb 97 c && leb c 122 then c - 32 else c

-- `s.toUpperCase()`
unfoldable pub to_upper : Text → Text
unfolding upper_unit
to_upper s = map upper_unit s

-- The code units that `trim` and the regular expression `\s` take for white space.
unfoldable pub is_space : ℕ → Bool
is_space c =
    (leb 9 c && leb c 13)
    || (c == 32)
    || (c == 160)
    || (c == 0x1680)
    || (leb 0x2000 c && leb c 0x200a)
    || (c == 0x2028)
    || (c == 0x2029)
    || (c == 0x202f)
    || (c == 0x205f)
    || (c == 0x3000)
    || (c == 0xfeff)

unfoldable pub drop_while : (ℕ → Bool) → Text → Text
drop_while p [] = []
drop_while p (c ∷ s) = if p c then drop_while p s else c ∷ s

-- `s.trim()`
unfoldable pub trim : Text → Text
unfolding drop_while is_space
trim s = reverse (drop_while is_space (reverse (drop_while is_space s)))

-- Puts `c` in front of the first piece.
abbrev pub cons_piece : ℕ → List Text → List Text
cons_piece c [] = (c ∷ []) ∷ []
cons_piece c (p ∷ ps) = (c ∷ p) ∷ ps

-- `s.split(d)` at a separator of one code unit: never empty.
unfoldable pub split_on : ℕ → Text → List Text
split_on d [] = [] ∷ []
split_on d (c ∷ s) = if c == d then [] ∷ split_on d s else cons_piece c (split_on d s)

-- `ps.join(d)`
unfoldable pub join : Text → List Text → Text
join d [] = []
join d (p ∷ []) = p
join d (p ∷ q ∷ ps) = p ++ (d ++ join d (q ∷ ps))

-- `s.slice(0, -1)`
unfoldable pub drop_last : Text → Text
drop_last [] = []
drop_last (c ∷ []) = []
drop_last (c ∷ d ∷ s) = c ∷ drop_last (d ∷ s)

includes_of_starts_with : (s p : Text) → starts_with s p ≡ true → includes s p ≡ true
unfolding includes
includes_of_starts_with [] p h = h
includes_of_starts_with (a ∷ s) p h = rw h

includes-cons : (a : ℕ) (s p : Text) → includes s p ≡ true → includes (a ∷ s) p ≡ true
unfolding includes
includes-cons a s p h = ground arith

-- What holds a text holds the text without its first unit.
pub includes-tail : (s p : Text) (c : ℕ) → includes s (c ∷ p) ≡ true → includes s p ≡ true
unfolding includes
includes-tail [] p c h = cc
includes-tail (a ∷ s) p c h = elim (Bool-cases (starts_with (a ∷ s) (c ∷ p))) [
  | inl e ↦ includes-cons a s p (includes_of_starts_with s p (ground arith))
  | inr e ↦ includes-cons a s p (includes-tail s p c (ground arith))
]
