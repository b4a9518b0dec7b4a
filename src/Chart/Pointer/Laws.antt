-- ===== src/Chart/Pointer/Laws.antt =====
-- The point that a move of the pointer finds is the first of the nearest ones
-- (web/src/components/TelemetryChart.tsx).
use ophanim.Base.{
  ℕ, zero, suc, ℤ, ◌+◌, ◌<◌, ◌≡◌, refl, inl, inr, true, false, Option, some, List, [], ◌∷◌, map,
  arith, all, take, get_elem?, ltb, leb, Bool-cases, ltb→lt, ◌==◌,
}
use ophanim.Chart.Plot.{Point, Dimensions}
use ophanim.Chart.Pointer.{
  closest_from, closest, distances, point_distance, pointer_move, active_point,
}

-- The entry `j` of the list is `d`, no entry is less, and those in front of it are more.
pub record IsFirstLeast (ds : List ℕ) (j : ℕ) (d : ℕ) : Type 0 where
  pub is_at : get_elem? ds j ≡ some d
  pub is_least : all (λ e. leb d e) ds ≡ true
  pub is_first : all (λ e. ltb d e) (take j ds) ≡ true

-- The loop keeps what it holds, or finds the first of the least entries.
pub data Found (i c m : ℕ) (ds : List ℕ) (r : ℕ) : Type 0 where
  kept : r ≡ c → all (λ e. leb m e) ds ≡ true → Found i c m ds r
  found : (j d : ℕ) → r ≡ i + j → d < m → IsFirstLeast ds j d → Found i c m ds r

step_near :
    (i c m e : ℕ) (ds : List ℕ) (r : ℕ)
    → ltb e m ≡ true
    → Found (i + 1) i e ds r
    → Found i c m (e ∷ ds) r
step_near i c m e ds r h (kept q l) =
    found 0 e (omega (arith, q)) (ltb→lt e m h)
      (record { is_at = refl; is_least = ground arith; is_first = refl })
step_near i c m e ds r h (found j d q l f) =
    found (suc j) d (omega (arith, q)) (omega (arith, l, ltb→lt e m h)) (record {
      is_at = f.is_at;
      is_least = ground (arith, f.is_least);
      is_first = ground (arith, f.is_first);
    })

step_far :
    (i c m e : ℕ) (ds : List ℕ) (r : ℕ)
    → ltb e m ≡ false
    → Found (i + 1) c m ds r
    → Found i c m (e ∷ ds) r
step_far i c m e ds r h (kept q l) = kept q (ground arith)
step_far i c m e ds r h (found j d q l f) = found (suc j) d (omega (arith, q)) l (record {
  is_at = f.is_at;
  is_least = ground (arith, f.is_least);
  is_first = ground (arith, f.is_first);
})

closest_from-Found : (i c m : ℕ) (ds : List ℕ) → Found i c m ds (closest_from i c (some m) ds)
unfolding closest_from
closest_from-Found i c m [] = kept refl refl
closest_from-Found i c m (e ∷ ds) = elim (Bool-cases (ltb e m)) [
  | inl h ↦ rw h (step_near i c m e ds _ h (closest_from-Found (i + 1) i e ds))
  | inr h ↦ rw h (step_far i c m e ds _ h (closest_from-Found (i + 1) c m ds))
]

first_least : (d : ℕ) (ds : List ℕ) (r : ℕ) → Found 1 0 d ds r → (e : ℕ) × IsFirstLeast (d ∷ ds) r e
first_least d ds r (kept q l) =
    (d, rw q (record { is_at = refl; is_least = ground arith; is_first = refl }))
first_least d ds r (found j e q l f) =
    let s : r ≡ suc j = omega (arith, q) in
    (
      e,
      rw s (record {
        is_at = f.is_at;
        is_least = ground (arith, f.is_least);
        is_first = ground (arith, f.is_first);
      }),
    )

closest-IsFirstLeast : (d : ℕ) (ds : List ℕ) → (e : ℕ) × IsFirstLeast (d ∷ ds) (closest (d ∷ ds)) e
unfolding closest closest_from
closest-IsFirstLeast d ds = first_least d ds _ (closest_from-Found 1 0 d ds)

get_elem?-map :
    {A B : Type 0} (f : A → B) (xs : List A) (j : ℕ) (b : B)
    → get_elem? (map f xs) j ≡ some b
    → (a : A) × (get_elem? xs j ≡ some a) × (f a ≡ b)
get_elem?-map f [] j b h = cc
get_elem?-map f (x ∷ xs) zero b h = (x, refl, ground arith)
get_elem?-map f (x ∷ xs) (suc j) b h = get_elem?-map f xs j b h

-- A move of the pointer over a chart with points, whose drawing has a width, finds a point: no
-- point is nearer to the pointer, those in front of it are further away, and it is the point that
-- the header shows.
pub pointer_move-active_point :
    (d : Dimensions) (unit rect_width : ℕ) (offset : ℤ) (p : Point) (ps : List Point)
    (hover : Option ℕ)
    → (rect_width == 0) ≡ false
    → (i : ℕ) × (q : Point) × (pointer_move d unit rect_width offset (p ∷ ps) hover ≡ some i)
      × (active_point (some i) (p ∷ ps) ≡ some q)
      × IsFirstLeast
          (distances d unit rect_width offset (p ∷ ps))
          i
          (point_distance d unit rect_width offset q)
unfolding pointer_move distances active_point
pointer_move-active_point d unit rect_width offset p ps hover h =
    let far = point_distance d unit rect_width offset in
    let (e, least) = closest-IsFirstLeast (far p) (map far ps) in
    let (q, at, same) = get_elem?-map far (p ∷ ps) _ e least.is_at in
    (closest (map far (p ∷ ps)), q, ground arith, rw at refl, rw same least)
