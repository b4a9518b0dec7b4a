-- ===== src/Base/Distinct.antt =====
-- Lists of distinct elements: their lengths under removal and selection, and their order.
use Prim.Native.Nat.{suc}
use mathlib.Core.Path.{◌≡◌, refl, ap, ◌∙◌}
use mathlib.Core.Logic.{inl, inr}
use mathlib.Core.Bool.{Bool, true, false, not, ◌&&◌, ◌||◌}
use mathlib.Core.List.{List, [], ◌∷◌}
use native.Mathlib.Omega.{arith}
use ophanim.Base.Tests.{Bool-cases}
use ophanim.Base.Lists.{filter, length}
use ophanim.Base.Sort.{Comparator, insert_sorted, sort}
use ophanim.Base.Equality.{Eq, ◌===◌, contains, without, distinct}

module _ {ℓ} {A : Type ℓ} ⦃e : Eq A⦄ where
  without_absent : (xs : List A) (a : A) → contains xs a ≡ false → without xs a ≡ xs
  unfolding contains without
  without_absent [] a h = refl
  without_absent (x ∷ xs) a h = ground (arith, without_absent xs a)

  -- Of distinct elements one is removed.
  pub length-without :
      (xs : List A) (a : A)
      → distinct xs ≡ true
      → contains xs a ≡ true
      → suc (length (without xs a)) ≡ length xs
  unfolding contains distinct without
  length-without [] a d c = cc
  length-without (x ∷ xs) a d c = elim (Bool-cases (x === a)) [
    | inl same ↦
        let x_is_a : x ≡ a = (e.beq_iff x a).0 same in
        let absent : contains xs a ≡ false = rw x_is_a at (not_contains x xs d) in
        rw (same, without_absent xs a absent)
    | inr other ↦ rw (other, length-without xs a (ground arith) (rw other at c))
  ]
    where
      not_contains :
          (y : A) (ys : List A)
          → (not (contains ys y) && distinct ys) ≡ true
          → contains ys y ≡ false
      not_contains y ys h = ground arith

  filter_absent :
      (k : A) (q : A → Bool) (xs : List A)
      → contains xs k ≡ false
      → filter (λ x. k === x || q x) xs ≡ filter q xs
  unfolding contains
  filter_absent k q [] h = refl
  filter_absent k q (x ∷ xs) h = ground (arith, filter_absent k q xs, e.beq_iff k x, e.beq_iff x k)

  length-filter_one_more :
      (k : A) (q : A → Bool) (xs : List A)
      → distinct xs ≡ true
      → contains xs k ≡ true
      → q k ≡ false
      → length (filter (λ x. k === x || q x) xs) ≡ suc (length (filter q xs))
  unfolding contains distinct
  length-filter_one_more k q [] d c h = cc
  length-filter_one_more k q (x ∷ xs) d c h = elim (Bool-cases (x === k)) [
    | inl same ↦
        let is_k : x ≡ k = (e.beq_iff x k).0 same in
        ground (arith, filter_absent k q xs, e.beq_iff k x, ap q is_k, ap (contains xs) is_k)
    | inr other ↦ ground (arith, length-filter_one_more k q xs, e.beq_iff k x, e.beq_iff x k)
  ]

  -- Selecting distinct elements from distinct ones that hold them all keeps their number.
  pub length-filter-contains :
      (every : List A)
      → distinct every ≡ true
      → ((a : A) → contains every a ≡ true)
      → (xs : List A) → distinct xs ≡ true
      → length (filter (contains xs) every) ≡ length xs
  unfolding contains distinct
  length-filter-contains every d h [] k = no_one every
    where
      no_one : (ys : List A) → length (filter (λ x. false) ys) ≡ 0
      no_one [] = refl
      no_one (y ∷ ys) = no_one ys
  length-filter-contains every d h (x ∷ xs) k =
      length-filter_one_more x (contains xs) every d (h x) (ground arith)
      ∙ ap suc (length-filter-contains every d h xs (ground arith))

module _ {A : Type 0} ⦃e : Eq A⦄ (cmp : Comparator A) where
  contains-insert_sorted :
      (x : A) (ys : List A) (a : A)
      → contains (insert_sorted cmp x ys) a ≡ (x === a || contains ys a)
  unfolding contains insert_sorted
  contains-insert_sorted x [] a = refl
  contains-insert_sorted x (y ∷ ys) a = ground (arith, contains-insert_sorted x ys a)

  pub contains-sort : (xs : List A) (a : A) → contains (sort cmp xs) a ≡ contains xs a
  unfolding contains sort
  contains-sort [] a = refl
  contains-sort (x ∷ xs) a =
      ground (arith, contains-insert_sorted x (sort cmp xs) a, contains-sort xs a)

  insert_sorted-distinct :
      (x : A) (ys : List A)
      → distinct ys ≡ true
      → contains ys x ≡ false
      → distinct (insert_sorted cmp x ys) ≡ true
  unfolding contains distinct insert_sorted
  insert_sorted-distinct x [] h k = refl
  insert_sorted-distinct x (y ∷ ys) h k = ground (
    arith,
    insert_sorted-distinct x ys,
    contains-insert_sorted x ys y,
    e.beq_iff x y,
    e.beq_iff y x,
  )

  pub sort-distinct : (xs : List A) → distinct xs ≡ true → distinct (sort cmp xs) ≡ true
  unfolding distinct sort
  sort-distinct [] h = refl
  sort-distinct (x ∷ xs) h =
      ground (arith, insert_sorted-distinct x (sort cmp xs), sort-distinct xs, contains-sort xs x)
