-- ===== src/Chart/Plot.antt =====
-- Where the telemetry chart draws its series (web/src/components/TelemetryChart.tsx).
-- Coordinates are exact: `x` counts in the `x_unit`-th part of a pixel, which is the length of the
-- window in milliseconds times the steps of the series; `y` counts in the `y_unit`-th part, which
-- is the height of the scale.
pub mod Laws
use ophanim.Base.{
  ℕ, zero, suc, ℤ, pos, negsuc, ◌+ℤ◌, ◌-ℤ◌, sub_ℕ, ◌+◌, ◌-◌, ◌*◌, ◌/◌, Bool, true, false, List, [],
  ◌∷◌, ◌++◌, map, Text, is_empty, if◌then◌else◌, ltb, leb, min, max, length, sort, compare, codes,
  Option, none, some,
}
use ophanim.Types.{Quantity, units, MetricPoint}
use ophanim.Chart.{
  TimeRange, minutes_15, hour_1, hours_6, hours_24, MetricTab, cpu_tab, memory_tab, network_tab,
  disk_tab, value_of, values, max_y, largest,
}

-- The size of the chart: `width` and `height` are whole pixels.
pub record Dimensions : Type 0 where
  pub width : ℕ
  pub height : ℕ

-- `updateSize`, from the width of the box and of the window.
unfoldable pub update_size : ℕ → ℕ → Dimensions
update_size box_width window_width = record {
  width = max box_width 260;
  height = if ltb window_width 640 then 240 else 280;
}

unfoldable pub is_mobile : Dimensions → Bool
is_mobile d = ltb d.width 520

unfoldable pub padding_left : Dimensions → ℕ
unfolding is_mobile
padding_left d = if is_mobile d then 58 else 68

unfoldable pub plot_width : Dimensions → ℕ
unfolding padding_left
plot_width d = max (d.width - padding_left d - 16) 10

unfoldable pub plot_height : Dimensions → ℕ
plot_height d = max (d.height - 16 - 30) 10

-- `rangeDurationMs`
unfoldable pub range_duration : TimeRange → ℕ
range_duration minutes_15 = 900000
range_duration hour_1 = 3600000
range_duration hours_6 = 21600000
range_duration hours_24 = 86400000

-- `Math.max(values.length - 1, 1)`
unfoldable pub steps : ℕ → ℕ
steps n = max (n - 1) 1

unfoldable pub x_unit : TimeRange → ℕ → ℕ
unfolding range_duration steps
x_unit range n = range_duration range * steps n

-- `Math.max(maxY - minY, 1)`
unfoldable pub y_unit : Quantity → Quantity
y_unit top = max top (units 1)

pub record Point : Type 0 where
  pub x : ℕ
  pub y : ℤ
  pub val : Quantity
  pub point : MetricPoint

-- `Math.max(0, Math.min(1, …))` of a time behind the start of the window, in parts of `unit`.
unfoldable pub clamp : ℕ → ℕ → ℤ → ℕ
clamp scale unit (pos t) = min (t * scale) unit
clamp scale unit (negsuc t) = 0

abbrev pub map_option : {A B : Type 0} → (A → B) → Option A → Option B
map_option f none = none
map_option f (some a) = some (f a)

abbrev pub both : {A : Type 0} → Option A → Option (List A) → Option (List A)
both none later = none
both (some a) none = none
both (some a) (some later) = some (a ∷ later)

-- `get_time` reads a time stamp as `getTime` does, `none` when that is NaN, and `now` is
-- `Date.now()`.
module _ (get_time : Text → Option ℤ) (now : ℕ) where
  -- `timeRatio` of the `i`-th of `n` values, in parts of `x_unit`; NaN for a stamp that cannot be
  -- read.
  unfoldable pub time_ratio : TimeRange → ℕ → ℕ → MetricPoint → Option ℕ
  unfolding range_duration steps x_unit clamp
  time_ratio range n i pt =
      if is_empty pt.timestamp
      then some (min (i * range_duration range) (x_unit range n))
      else map_option
          (λ t. clamp (steps n) (x_unit range n) ((t -ℤ pos now) +ℤ pos (range_duration range)))
          (get_time pt.timestamp)

  -- `none` when the place of the point is NaN.
  unfoldable pub point_of :
      Dimensions → TimeRange → Quantity → ℕ → ℕ → Quantity → MetricPoint → Option Point
  unfolding time_ratio x_unit y_unit padding_left plot_width plot_height
  point_of d range top n i v pt =
      map_option
        (λ r. record {
          x = padding_left d * x_unit range n + r * plot_width d;
          y = sub_ℕ ((16 + plot_height d) * y_unit top) (v * plot_height d);
          val = v;
          point = pt;
        })
        (time_ratio range n i pt)

  -- The points of the history from the `i`-th on, `none` when the place of one is NaN.
  unfoldable pub points_from :
      Dimensions
      → TimeRange
      → MetricTab
      → Bool
      → Quantity
      → ℕ
      → ℕ
      → List MetricPoint
      → Option (List Point)
  unfolding point_of value_of
  points_from d range tab is_container top n i [] = some []
  points_from d range tab is_container top n i (pt ∷ pts) =
      both (point_of d range top n i (value_of tab is_container pt) pt)
        (points_from d range tab is_container top n (i + 1) pts)

  -- `points`, sorted by `x`; `none` when the place of one is NaN.
  unfoldable pub points :
      Dimensions → TimeRange → MetricTab → Bool → List MetricPoint → Option (List Point)
  unfolding points_from max_y values
  points d range tab is_container history = map_option (sort (λ a b. compare a.x b.x)) (
      points_from d range tab is_container
        (max_y tab is_container (values tab is_container history)) (length history) 0 history)

-- `renderedPoints`: a single point becomes a line over the whole width; `unit` is the unit of `x`.
unfoldable pub rendered_points : Dimensions → ℕ → List Point → List Point
unfolding padding_left plot_width
rendered_points d unit (p ∷ []) =
    record p { x = padding_left d * unit }
    ∷ record p { x = (padding_left d + plot_width d) * unit }
    ∷ []
rendered_points d unit ps = ps

-- The commands of a path.
pub data PathPart : Type 0 where
  move_to line_to : ℕ → ℤ → PathPart
  close_path : PathPart

-- `svgPath`
unfoldable pub svg_path : List Point → List PathPart
svg_path [] = []
svg_path (p ∷ ps) = move_to p.x p.y ∷ map (λ q. line_to q.x q.y) ps

abbrev pub last_x : ℕ → List Point → ℕ
last_x x [] = x
last_x x (p ∷ ps) = last_x p.x ps

-- `areaPath`; `bottom` is the lower edge of the plot in the unit of `y`.
unfoldable pub area_path : ℤ → List Point → List PathPart
unfolding svg_path
area_path bottom [] = []
area_path bottom (p ∷ ps) =
    svg_path (p ∷ ps) ++ (line_to (last_x p.x ps) bottom ∷ line_to p.x bottom ∷ close_path ∷ [])

-- `yTicks`, in quarters of a value and of a pixel.
unfoldable pub y_ticks : Dimensions → Quantity → List (ℕ × ℕ)
unfolding plot_height
y_ticks d top =
    (top * 4, 16 * 4)
    ∷ (top * 3, 16 * 4 + plot_height d)
    ∷ (top * 2, 16 * 4 + plot_height d * 2)
    ∷ (top, 16 * 4 + plot_height d * 3)
    ∷ (0, 16 * 4 + plot_height d * 4)
    ∷ []

-- A number that is shown: `amount / divisor` to so many digits.
pub record Label : Type 0 where
  pub amount : Quantity
  pub divisor : ℕ
  pub digits : ℕ
  pub unit : Text

-- `formatYLabel`
unfoldable pub format_y_label : MetricTab → Bool → Quantity → Label
format_y_label cpu_tab is_container v = record {
  amount = v;
  divisor = 1;
  digits = 0;
  unit = codes "%";
}
format_y_label memory_tab true v = record {
  amount = v;
  divisor = 1;
  digits = 0;
  unit = codes " MB";
}
format_y_label memory_tab false v = record { amount = v; divisor = 1; digits = 0; unit = codes "%" }
format_y_label _ is_container v =
    if leb (units 1024) v
    then record { amount = v; divisor = 1024; digits = 1; unit = codes " MB/s" }
    else record { amount = v; divisor = 1; digits = 0; unit = codes " KB/s" }

-- `tickCount`, and the ticks of the time axis: where each stands, in parts of `tickCount - 1`.
unfoldable pub tick_count : Dimensions → ℕ
unfolding is_mobile
tick_count d = if is_mobile d then 3 else 5

abbrev pub ticks_from : Dimensions → ℕ → ℕ → List ℕ
ticks_from d i zero = []
ticks_from d i (suc n) =
    (padding_left d * max (tick_count d - 1) 1 + i * plot_width d) ∷ ticks_from d (i + 1) n

unfoldable pub x_ticks : Dimensions → List ℕ
unfolding tick_count padding_left plot_width
x_ticks d = ticks_from d 0 (tick_count d)

-- `minVal`, `peakVal`, the sum of `avgVal` and `currentVal`.
unfoldable pub min_val : List Quantity → Quantity
min_val [] = 0
min_val (v ∷ []) = v
min_val (v ∷ w ∷ vs) = min v (min_val (w ∷ vs))

unfoldable pub peak_val : List Quantity → Quantity
unfolding largest
peak_val vs = largest vs

unfoldable pub total : List Quantity → Quantity
total [] = 0
total (v ∷ vs) = v + total vs

unfoldable pub current_val : List Quantity → Quantity
current_val [] = 0
current_val (v ∷ []) = v
current_val (v ∷ w ∷ vs) = current_val (w ∷ vs)

-- The mean to whole thousandths, rounded down; without values it is zero.
unfoldable pub avg_val : List Quantity → Quantity
unfolding total
avg_val [] = 0
avg_val (v ∷ vs) = total (v ∷ vs) / length (v ∷ vs)
