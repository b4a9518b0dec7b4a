-- ===== src/Chart/Pointer.antt =====
-- The point under the pointer (web/src/components/TelemetryChart.tsx).
pub mod Laws
use ophanim.Base.{
  ℕ, suc, ℤ, pos, negsuc, ◌+◌, ◌-◌, ◌*◌, Option, none, some, List, [], ◌∷◌, map, ltb, if◌then◌else◌,
  Bool, true, false, get_elem?, length, ◌==◌, ◌||◌, sub_ℕ,
}
use ophanim.Chart.Plot.{Point, Dimensions}

-- `Math.abs(a - b)`
unfoldable pub distance : ℕ → ℤ → ℕ
distance a (pos b) = (a - b) + (b - a)
distance a (negsuc b) = a + suc b

-- `a * b` for a number that may be below zero.
unfoldable pub times : ℤ → ℕ → ℤ
times (pos a) b = pos (a * b)
times (negsuc a) b = sub_ℕ 0 (suc a * b)

-- `dist < minDist`, where `minDist` begins as infinity.
abbrev pub is_nearer : ℕ → Option ℕ → Bool
is_nearer dist none = true
is_nearer dist (some m) = ltb dist m

-- The loop over the distances from the `i`-th on.
unfoldable pub closest_from : ℕ → ℕ → Option ℕ → List ℕ → ℕ
closest_from i closest least [] = closest
closest_from i closest least (d ∷ ds) =
    if is_nearer d least
    then closest_from (i + 1) i (some d) ds
    else closest_from (i + 1) closest least ds

-- `closestIdx`
unfoldable pub closest : List ℕ → ℕ
unfolding closest_from
closest ds = closest_from 0 0 none ds

-- The distance of a point from the pointer, in the unit of `x` times the width of the drawing on
-- the screen; `offset` is `clientX - svgRect.left`.
unfoldable pub point_distance : Dimensions → ℕ → ℕ → ℤ → Point → ℕ
unfolding distance times
point_distance d unit rect_width offset p =
    distance (p.x * rect_width) (times offset (d.width * unit))

unfoldable pub distances : Dimensions → ℕ → ℕ → ℤ → List Point → List ℕ
unfolding point_distance
distances d unit rect_width offset ps = map (point_distance d unit rect_width offset) ps

-- `handlePointerMove`
unfoldable pub pointer_move : Dimensions → ℕ → ℕ → ℤ → List Point → Option ℕ → Option ℕ
unfolding distances closest
pointer_move d unit rect_width offset ps hover =
    if (length ps == 0) || (rect_width == 0)
    then hover
    else some (closest (distances d unit rect_width offset ps))

-- The pointer leaves the chart.
unfoldable pub pointer_leave : Option ℕ → Option ℕ
pointer_leave hover = none

abbrev pub last_point : List Point → Option Point
last_point [] = none
last_point (p ∷ []) = some p
last_point (p ∷ q ∷ ps) = last_point (q ∷ ps)

abbrev pub or_else : {A : Type 0} → Option A → Option A → Option A
or_else none o = o
or_else (some a) o = some a

-- `activePt`
unfoldable pub active_point : Option ℕ → List Point → Option Point
active_point none ps = last_point ps
active_point (some i) ps = or_else (get_elem? ps i) (last_point ps)
