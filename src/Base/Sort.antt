-- ===== src/Base/Sort.antt =====
-- `Array.prototype.sort`: a stable sort by a comparator, of whose result the source reads the sign.
use Prim.Native.Nat.{suc, Ordering}
use mathlib.Core.Path.{◌≡◌, refl, ap, ◌∙◌}
use mathlib.Core.Logic.{inl, inr}
use mathlib.Core.Bool.{Bool, true, false, ◌&&◌}
use mathlib.Core.List.{List, [], ◌∷◌, Perm}
use mathlib.Core.List.Perm
use native.Mathlib.Omega.{arith}
use ophanim.Base.Tests.{if◌then◌else◌, Bool-cases}
use ophanim.Base.Lists.{all, length}

-- The sign of `cmp(a, b)`: `lt` for a negative number, `gt` for a positive one.
abbrev pub Comparator : Type 0 → Type 0
Comparator A = A → A → Ordering

-- `cmp(a, b) > 0`: `a` belongs behind `b`.
abbrev pub is_gt : Ordering → Bool
is_gt Ordering.gt = true
is_gt _ = false

abbrev pub is_eq : Ordering → Bool
is_eq Ordering.eq = true
is_eq _ = false

-- `cmp(b, a)` from `cmp(a, b)`
abbrev pub flip : Ordering → Ordering
flip Ordering.lt = Ordering.gt
flip Ordering.eq = Ordering.eq
flip Ordering.gt = Ordering.lt

-- What ECMAScript asks of a comparator, else the order is up to the implementation.
pub record IsConsistent {A : Type 0} (cmp : Comparator A) : Type 0 where
  pub flips : (a b : A) → cmp b a ≡ flip (cmp a b)
  pub trans :
      (a b c : A) → is_gt (cmp a b) ≡ false → is_gt (cmp b c) ≡ false → is_gt (cmp a c) ≡ false

module _ {A : Type 0} where
  unfoldable pub insert_sorted : Comparator A → A → List A → List A
  insert_sorted cmp x [] = x ∷ []
  insert_sorted cmp x (y ∷ ys) = if is_gt (cmp x y) then y ∷ insert_sorted cmp x ys else x ∷ y ∷ ys

  unfoldable pub sort : Comparator A → List A → List A
  unfolding insert_sorted
  sort cmp [] = []
  sort cmp (x ∷ xs) = insert_sorted cmp x (sort cmp xs)

  -- Each element is in front of all that follow it, or ties with them.
  abbrev pub Ahead : Comparator A → A → List A → Type 0
  Ahead cmp x [] = Unit
  Ahead cmp x (y ∷ ys) = (is_gt (cmp x y) ≡ false) × Ahead cmp x ys

  abbrev pub IsSorted : Comparator A → List A → Type 0
  IsSorted cmp [] = Unit
  IsSorted cmp (x ∷ xs) = Ahead cmp x xs × IsSorted cmp xs

module _ {A : Type 0} (cmp : Comparator A) where
  insert_sorted-Perm : (x : A) (ys : List A) → Perm (insert_sorted cmp x ys) (x ∷ ys)
  unfolding insert_sorted
  insert_sorted-Perm x [] = Perm.refl (x ∷ [])
  insert_sorted-Perm x (y ∷ ys) = elim (Bool-cases (is_gt (cmp x y))) [
    | inl e ↦ rw e (Perm.trans (Perm.cons y (insert_sorted-Perm x ys)) (Perm.swap x y ys))
    | inr e ↦ rw e (Perm.refl (x ∷ y ∷ ys))
  ]

  -- Sorting loses and invents nothing.
  pub sort-Perm : (xs : List A) → Perm (sort cmp xs) xs
  unfolding sort
  sort-Perm [] = Perm.refl []
  sort-Perm (x ∷ xs) = Perm.trans (insert_sorted-Perm x (sort cmp xs)) (Perm.cons x (sort-Perm xs))

  all-insert_sorted :
      (p : A → Bool) (x : A) (ys : List A) → all p (insert_sorted cmp x ys) ≡ (p x && all p ys)
  unfolding insert_sorted
  all-insert_sorted p x [] = refl
  all-insert_sorted p x (y ∷ ys) = ground (arith, all-insert_sorted p x ys)

  pub all-sort : (p : A → Bool) (xs : List A) → all p (sort cmp xs) ≡ all p xs
  unfolding sort
  all-sort p [] = refl
  all-sort p (x ∷ xs) = rw (all-insert_sorted, all-sort p xs)

  length-insert_sorted : (x : A) (ys : List A) → length (insert_sorted cmp x ys) ≡ suc (length ys)
  unfolding insert_sorted
  length-insert_sorted x [] = refl
  length-insert_sorted x (y ∷ ys) = ground (arith, length-insert_sorted x ys)

  pub length-sort : (xs : List A) → length (sort cmp xs) ≡ length xs
  unfolding sort
  length-sort [] = refl
  length-sort (x ∷ xs) = length-insert_sorted x (sort cmp xs) ∙ ap suc (length-sort xs)

  module _ (law : IsConsistent cmp) where
    Ahead-insert_sorted :
        (z x : A) (ys : List A)
        → is_gt (cmp z x) ≡ false
        → Ahead cmp z ys
        → Ahead cmp z (insert_sorted cmp x ys)
    unfolding insert_sorted
    Ahead-insert_sorted z x [] h k = (h, tt)
    Ahead-insert_sorted z x (y ∷ ys) h k = ground (arith, Ahead-insert_sorted z x ys h k.1)

    Ahead-trans :
        (x y : A) (ys : List A) → is_gt (cmp x y) ≡ false → Ahead cmp y ys → Ahead cmp x ys
    Ahead-trans x y [] h k = tt
    Ahead-trans x y (z ∷ zs) h k = (law.trans x y z h k.0, Ahead-trans x y zs h k.1)

    insert_sorted-IsSorted :
        (x : A) (ys : List A) → IsSorted cmp ys → IsSorted cmp (insert_sorted cmp x ys)
    unfolding insert_sorted
    insert_sorted-IsSorted x [] h = (tt, tt)
    insert_sorted-IsSorted x (y ∷ ys) h = elim (Bool-cases (is_gt (cmp x y))) [
      | inl e ↦
          let back : is_gt (cmp y x) ≡ false = ground (arith, law.flips x y) in
          rw e (Ahead-insert_sorted y x ys back h.0, insert_sorted-IsSorted x ys h.1)
      | inr e ↦ rw e ((e, Ahead-trans x y ys e h.0), (h.0, h.1))
    ]

    -- With a consistent comparator the result is in order.
    pub sort-IsSorted : (xs : List A) → IsSorted cmp (sort cmp xs)
    unfolding sort
    sort-IsSorted [] = tt
    sort-IsSorted (x ∷ xs) = insert_sorted-IsSorted x (sort cmp xs) (sort-IsSorted xs)
