-- ===== src/Chart/Plot/Laws.antt =====
-- The drawing stays in the plot (web/src/components/TelemetryChart.tsx).
use native.Mathlib.Nat.{mul-le-mul_left}
use ophanim.Base.{
  min, sort, compare, negsuc, ◌+ℤ◌, ◌-ℤ◌, ℤ, Option, some, is_some, is_empty, ◌||◌, Bool-cases,
  Option-cases, inl, inr, ℕ, suc, pos, ◌+◌, ◌*◌, ◌≤◌, ◌≡◌, refl, ◌∙◌, Bool, true, List, [], ◌∷◌,
  Text, arith, length, all, leb, leb→le, sub_ℕ, ltb_ℤ, not, ◌&&◌, ap, all-sort, length-sort,
}
use ophanim.Types.{Quantity, MetricPoint}
use ophanim.Chart.{TimeRange, MetricTab, value_of, values, max_y}
use ophanim.Chart.Laws.{Fits}
use ophanim.Chart.Plot.{
  Dimensions, Point, padding_left, plot_width, plot_height, range_duration, steps, clamp, x_unit,
  y_unit, time_ratio, point_of, points_from, points,
}

-- The point lies between the left and the right edge of the plot, and between the upper and the
-- lower one.
unfoldable pub is_inside : Dimensions → ℕ → ℕ → Point → Bool
is_inside d unit_x unit_y p =
    leb (padding_left d * unit_x) p.x
    && leb p.x ((padding_left d + plot_width d) * unit_x)
    && not (ltb_ℤ p.y (pos (16 * unit_y)))
    && not (ltb_ℤ (pos ((16 + plot_height d) * unit_y)) p.y)

-- The arithmetic of the two axes.
x_inside :
    (left wide unit r : ℕ)
    → r ≤ unit
    → (leb (left * unit) (left * unit + r * wide) ≡ true)
      × (leb (left * unit + r * wide) ((left + wide) * unit) ≡ true)
x_inside left wide unit r h =
    let scaled : wide * r ≤ wide * unit = mul-le-mul_left wide h in (ground arith, ground arith)

y_inside :
    (high unit v : ℕ)
    → v ≤ unit
    → (not (ltb_ℤ (sub_ℕ ((16 + high) * unit) (v * high)) (pos (16 * unit))) ≡ true)
      × (not (ltb_ℤ (pos ((16 + high) * unit)) (sub_ℕ ((16 + high) * unit) (v * high))) ≡ true)
y_inside high unit v h =
    let scaled : high * v ≤ high * unit = mul-le-mul_left high h in (ground arith, ground arith)

clamp-bound : (scale unit : ℕ) (t : ℤ) → clamp scale unit t ≤ unit
unfolding clamp
clamp-bound scale unit (pos t) = omega arith
clamp-bound scale unit (negsuc t) = omega arith

-- The stamp is missing or can be read.
abbrev pub is_readable : (Text → Option ℤ) → MetricPoint → Bool
is_readable get_time pt = is_empty pt.timestamp || is_some (get_time pt.timestamp)

module _ (get_time : Text → Option ℤ) (now : ℕ) where
  time_ratio-bound :
      (range : TimeRange) (n i : ℕ) (pt : MetricPoint)
      → is_readable get_time pt ≡ true
      → (r : ℕ) × (time_ratio get_time now range n i pt ≡ some r) × (r ≤ x_unit range n)
  unfolding time_ratio
  time_ratio-bound range n i pt h = elim (Bool-cases (is_empty pt.timestamp)) [
    | inl e ↦ (min (i * range_duration range) (x_unit range n), rw e refl, omega arith)
    | inr e ↦ elim (Option-cases (get_time pt.timestamp)) [
      | inl missing ↦ absurd (ground (arith, e, missing, h))
      | inr (t, found) ↦
          let offset = (t -ℤ pos now) +ℤ pos (range_duration range) in
          (
            clamp (steps n) (x_unit range n) offset,
            rw (e, found) refl,
            clamp-bound (steps n) (x_unit range n) offset,
          )
    ]
  ]

  -- A value that the scale holds is drawn inside the plot, whenever it was measured.
  point_of-is_inside :
      (d : Dimensions) (range : TimeRange) (top : Quantity) (n i : ℕ) (v : Quantity)
      (pt : MetricPoint)
      → is_readable get_time pt ≡ true
      → v ≤ top
      → (p : Point) × (point_of get_time now d range top n i v pt ≡ some p)
        × (is_inside d (x_unit range n) (y_unit top) p ≡ true)
  unfolding point_of is_inside
  point_of-is_inside d range top n i v pt readable h =
      let (r, found, small) = time_ratio-bound range n i pt readable in
      let xs = x_inside (padding_left d) (plot_width d) (x_unit range n) r small in
      let fits : v ≤ y_unit top = unfold y_unit in omega arith in
      let ys = y_inside (plot_height d) (y_unit top) v fits in
      (
        record {
          x = padding_left d * x_unit range n + r * plot_width d;
          y = sub_ℕ ((16 + plot_height d) * y_unit top) (v * plot_height d);
          val = v;
          point = pt;
        },
        rw found refl,
        rw (xs.0, xs.1, ys.0, ys.1) refl,
      )

  points_from-is_inside :
      (d : Dimensions) (range : TimeRange) (tab : MetricTab) (is_container : Bool) (top : Quantity)
      (n i : ℕ) (pts : List MetricPoint)
      → all (is_readable get_time) pts ≡ true
      → all (λ v. leb v top) (values tab is_container pts) ≡ true
      → (ps : List Point) × (points_from get_time now d range tab is_container top n i pts
          ≡ some ps)
        × (all (is_inside d (x_unit range n) (y_unit top)) ps ≡ true)
        × (length ps ≡ length pts)
  unfolding points_from values
  points_from-is_inside d range tab is_container top n i [] readable h = ([], refl, refl, refl)
  points_from-is_inside d range tab is_container top n i (pt ∷ pts) readable h =
      let v = value_of tab is_container pt in
      let fits : leb v top ≡ true = ground arith in
      let (p, found, inside) =
        point_of-is_inside d range top n i v pt (ground (arith, readable)) (leb→le v top fits) in
      let (ps, later, all_inside, as_many) =
        points_from-is_inside d range tab is_container top n (i + 1) pts (ground (arith, readable))
          (ground arith) in
      (p ∷ ps, rw (found, later) refl, rw inside all_inside, ap suc as_many)

  -- Every point of the chart is drawn inside the plot, at any size of the chart, for any range and
  -- for time stamps in front of, in and behind its window, if each stamp is missing or can be read
  -- and the values are not above the top of the scale; and there is a point for each entry of
  -- the history.
  pub points-is_inside :
      (d : Dimensions) (range : TimeRange) (tab : MetricTab) (is_container : Bool)
      (history : List MetricPoint)
      → all (is_readable get_time) history ≡ true
      → Fits tab is_container (values tab is_container history)
      → (drawn : List Point) × (points get_time now d range tab is_container history ≡ some drawn)
        × (all
              (is_inside d
                (x_unit range (length history))
                (y_unit (max_y tab is_container (values tab is_container history))))
              drawn
            ≡ true)
        × (length drawn ≡ length history)
  unfolding points
  points-is_inside d range tab is_container history readable h =
      let (ps, found, inside, as_many) =
        points_from-is_inside d range tab is_container _ (length history) 0 history readable h in
      (
        sort (λ a b. compare a.x b.x) ps,
        rw found refl,
        all-sort _ _ ps ∙ inside,
        length-sort _ ps ∙ as_many,
      )
