-- ===== src/Chart/Laws.antt =====
-- Every value fits under the top of the chart's scale (web/src/components/TelemetryChart.tsx).
use native.Mathlib.Nat.{div-lt_iff_lt-mul}
use ophanim.Base.{
  ℕ, suc, ◌+◌, ◌*◌, ◌/◌, ◌≤◌, ◌<◌, ◌≡◌, refl, Bool, true, false, List, [], ◌∷◌, all, leb, max,
  arith, all_imp, leb→le,
}
use ophanim.Types.{Quantity, units}
use ophanim.Chart.{MetricTab, cpu_tab, memory_tab, network_tab, disk_tab, largest, scaled, max_y}

le→leb : (a b : ℕ) → a ≤ b → leb a b ≡ true
le→leb a b h = ground arith

largest-bound : (vs : List Quantity) → all (λ v. leb v (largest vs)) vs ≡ true
unfolding largest
largest-bound [] = refl
largest-bound (v ∷ vs) = ground (
  arith,
  all_imp _ (λ w. leb w (max v (largest vs))) vs
      (λ w h. le→leb w (max v (largest vs)) (omega (arith, leb→le w (largest vs) h)))
      (largest-bound vs),
)

scaled-bound :
    (least percent : ℕ) (v : Quantity) → v * 100 ≤ v * percent → v ≤ scaled least percent v
unfolding scaled
scaled-bound least percent v h =
    let q = (v * percent + 99999) / 100000 in
    let above : v * percent + 99999 < suc q * 100000 =
      (div-lt_iff_lt-mul (omega arith)).0 (omega arith) in
    omega arith

-- No value of a series is above the top of its scale.
abbrev pub Fits : MetricTab → Bool → List Quantity → Type 0
Fits tab is_container vs = all (λ v. leb v (max_y tab is_container vs)) vs ≡ true

under : (top : Quantity) (vs : List Quantity) → largest vs ≤ top → all (λ v. leb v top) vs ≡ true
under top vs h =
    all_imp _ (λ v. leb v top) vs (λ v k. le→leb v top (omega (arith, leb→le v (largest vs) k)))
      (largest-bound vs)

-- No value is above the top of the scale, under each tab but the memory of a host, whose scale
-- ends at one hundred per cent whatever the values are.
pub max_y-Fits :
    (is_container : Bool) (vs : List Quantity)
    → Fits cpu_tab is_container vs
      × Fits memory_tab true vs
      × Fits network_tab is_container vs
      × Fits disk_tab is_container vs
      × (max_y memory_tab false vs ≡ units 100)
unfolding max_y
max_y-Fits is_container vs = (
  under _ vs (scaled-bound 100 115 (largest vs) (omega arith)),
  under _ vs (scaled-bound 128 120 (largest vs) (omega arith)),
  under _ vs (scaled-bound 10 125 (largest vs) (omega arith)),
  under _ vs (scaled-bound 10 125 (largest vs) (omega arith)),
  refl,
)
