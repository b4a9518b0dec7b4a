-- ===== src/Base/Equality.antt =====
-- `===` as an interface, and the array idioms that rest on it: `includes`, removal by `filter`,
-- the toggling of a selection, and `Array.from(new Set(xs))`.
use Prim.Native.Nat.{ℕ}
use mathlib.Core.Path.{◌≡◌, refl}
use mathlib.Core.Logic.{◌↔◌}
use mathlib.Core.Bool.{Bool, true, false, not, ◌&&◌, ◌||◌}
use mathlib.Core.List.{List, [], ◌∷◌, ◌++◌}
use native.Mathlib.Omega.{arith}
use ophanim.Base.Tests.{◌==◌ as nat_beq, ==_iff, if◌then◌else◌}
use ophanim.Base.Lists.{filter}
use ophanim.Base.Strings.{Text, text_eq, text_eq_iff}

pub record Eq {ℓ} (A : Type ℓ) : Type ℓ where
  pub beq : A → A → Bool
  pub beq_iff : (a b : A) → (beq a b ≡ true) ↔ (a ≡ b)

infix 50 ◌===◌
abbrev pub ◌===◌ {ℓ} : {A : Type ℓ} ⦃e : Eq A⦄ → A → A → Bool
◌===◌ ⦃e⦄ = e.beq

instance abbrev pub nat_eq : Eq ℕ
nat_eq = record { beq = nat_beq; beq_iff = ==_iff }

instance abbrev pub text_eq_instance : Eq Text
text_eq_instance = record { beq = text_eq; beq_iff = text_eq_iff }

abbrev pub is_yes {ℓ} : {P : Type ℓ} → Dec P → Bool
is_yes (yes p) = true
is_yes (no p) = false

pub is_yes_iff {ℓ} : {P : Type ℓ} (d : Dec P) → (is_yes d ≡ true) ↔ P
is_yes_iff (yes p) = (λ _. p, λ _. refl)
is_yes_iff (no n) = (λ e. cc, λ p. absurd (n p))

-- Equality of an enumeration from its decision procedure.
abbrev pub eq_of_discrete {ℓ} : {A : Type ℓ} → Discrete A → Eq A
eq_of_discrete d = record { beq = λ a b. is_yes (d a b); beq_iff = λ a b. is_yes_iff (d a b) }

module _ {ℓ} {A : Type ℓ} ⦃e : Eq A⦄ where
  -- `xs.includes(a)`
  unfoldable pub contains : List A → A → Bool
  contains [] a = false
  contains (x ∷ xs) a = x === a || contains xs a

  -- `xs.filter((x) => x !== a)`
  unfoldable pub without : List A → A → List A
  without xs a = filter (λ x. not (x === a)) xs

  -- Adds what is missing at the end, and removes what is there.
  unfoldable pub toggle : A → List A → List A
  unfolding contains without
  toggle a xs = if contains xs a then without xs a else xs ++ a ∷ []

  -- No element twice.
  unfoldable pub distinct : List A → Bool
  unfolding contains
  distinct [] = true
  distinct (x ∷ xs) = not (contains xs x) && distinct xs

  -- `Array.from(new Set(xs))`: the first occurrences, in order.
  unfoldable pub unique : List A → List A
  unfolding without
  unique [] = []
  unique (x ∷ xs) = x ∷ without (unique xs) x

  pub beq_refl : (a : A) → (a === a) ≡ true
  beq_refl a = (e.beq_iff a a).1 refl

  pub contains-append :
      (xs ys : List A) (a : A) → contains (xs ++ ys) a ≡ (contains xs a || contains ys a)
  unfolding contains
  contains-append [] ys a = refl
  contains-append (x ∷ xs) ys a = ground (arith, contains-append xs ys a)

  pub contains-filter_ne :
      (xs : List A) (a b : A) → contains (without xs a) b ≡ (not (a === b) && contains xs b)
  unfolding contains without
  contains-filter_ne [] a b = ground arith
  contains-filter_ne (x ∷ xs) a b =
      ground (arith, contains-filter_ne xs a b, e.beq_iff x a, e.beq_iff x b, e.beq_iff a b)

  pub contains-snoc :
      (xs : List A) (a b : A) → contains (xs ++ a ∷ []) b ≡ (contains xs b || (a === b))
  unfolding contains
  contains-snoc [] a b = ground arith
  contains-snoc (x ∷ xs) a b = ground (arith, contains-snoc xs a b)

  -- A toggle changes the membership of its own element, and of no other.
  pub contains-toggle :
      (a b : A) (xs : List A)
      → contains (toggle a xs) b ≡ (if a === b then not (contains xs b) else contains xs b)
  unfolding toggle
  contains-toggle a b xs =
      ground (arith, contains-filter_ne xs a b, contains-snoc xs a b, e.beq_iff a b)

  pub without-distinct : (xs : List A) (a : A) → distinct xs ≡ true → distinct (without xs a) ≡ true
  unfolding distinct without
  without-distinct [] a h = refl
  without-distinct (x ∷ xs) a h = ground (arith, without-distinct xs a, contains-filter_ne xs a x)

  pub append-distinct :
      (xs : List A) (a : A)
      → distinct xs ≡ true
      → contains xs a ≡ false
      → distinct (xs ++ a ∷ []) ≡ true
  unfolding distinct
  append-distinct [] a h k = refl
  append-distinct (x ∷ xs) a h k =
      ground (arith, append-distinct xs a, contains-snoc xs a x, e.beq_iff a x, e.beq_iff x a)

  pub toggle-distinct : (a : A) (xs : List A) → distinct xs ≡ true → distinct (toggle a xs) ≡ true
  unfolding toggle
  toggle-distinct a xs h = ground (arith, without-distinct xs a h, append-distinct xs a h)

  pub contains-unique : (xs : List A) (a : A) → contains (unique xs) a ≡ contains xs a
  unfolding unique contains
  contains-unique [] a = refl
  contains-unique (x ∷ xs) a =
      ground (arith, contains-unique xs a, contains-filter_ne (unique xs) x a)

  pub unique-distinct : (xs : List A) → distinct (unique xs) ≡ true
  unfolding unique distinct
  unique-distinct [] = refl
  unique-distinct (x ∷ xs) = ground (
    arith,
    without-distinct (unique xs) x (unique-distinct xs),
    contains-filter_ne (unique xs) x x,
    beq_refl x,
  )
