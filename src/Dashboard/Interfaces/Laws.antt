-- ===== src/Dashboard/Interfaces/Laws.antt =====
-- The network interfaces of web/src/pages/Dashboard.tsx in order.
use native.Mathlib.Nat.{div-lt_iff_lt-mul, le-div_iff_mul-le}
use ophanim.Base.{
  ℕ, ◌*◌, ◌/◌, ◌≤◌, ◌<◌, ◌≡◌, refl, true, false, List, [], ◌∷◌, codes, arith, all, if◌then◌else◌,
  leb, includes, max, all_imp, leb→le, includes-tail,
}
use ophanim.Types.{NetworkInterface, Quantity, units}
use ophanim.Dashboard.Interfaces.{
  interface_tier, is_major_uplink, max_rate, bar_width, is_wan, is_lan, is_wlan, tile_tint,
  tile_icon, lapis, radio,
}

-- Every tier is between 1 and 10.
tier_bounds : (f : NetworkInterface) → (1 ≤ interface_tier f) × (interface_tier f ≤ 10)
unfolding interface_tier
tier_bounds f = ground arith

-- The leading uplinks of a list.
abbrev leading : List NetworkInterface → List NetworkInterface
leading [] = []
leading (f ∷ fs) = if is_major_uplink f then f ∷ leading fs else []

abbrev trailing : List NetworkInterface → List NetworkInterface
trailing [] = []
trailing (f ∷ fs) = if is_major_uplink f then trailing fs else f ∷ fs

le_max : (a b c : ℕ) → a ≤ c → a ≤ max b c
le_max a b c h = omega arith

le→leb : (a b : ℕ) → a ≤ b → leb a b ≡ true
le→leb a b h = ground arith

-- No rate of a shown interface exceeds the largest, which is at least one unit.
max_rate_bound :
    (f : NetworkInterface → Quantity) (is : List NetworkInterface)
    → (units 1 ≤ max_rate f is) × (all (λ i. leb (f i) (max_rate f is)) is ≡ true)
unfolding max_rate
max_rate_bound f [] = (omega arith, refl)
max_rate_bound f (i ∷ is) =
    let (one, rest) = max_rate_bound f is in
    (
      omega arith,
      ground (
        arith,
        all_imp _ (λ j. leb (f j) (max (f i) (max_rate f is))) is
            (λ j h. le→leb _ _ (le_max (f j) (f i) (max_rate f is) (leb→le _ _ h))) rest,
      ),
    )

-- The bar of a rate that does not exceed the largest one is its share of it in thousandths of a
-- per cent, but at least three per cent; the largest rate fills its track.
bar_width_lem :
    (q most : Quantity)
    → q ≤ most
    → 0 < most
    → (bar_width q most ≡ max (units 3) (q * units 100 / most)) × (bar_width most most ≡ units 100)
unfolding bar_width
bar_width_lem q most h pos =
    let share : q * 100000 / most < 100001 = (div-lt_iff_lt-mul pos).1 (omega arith) in
    let below : most * 100000 / most < 100001 = (div-lt_iff_lt-mul pos).1 (omega arith) in
    let full : 100000 ≤ most * 100000 / most = (le-div_iff_mul-le pos).1 (omega arith) in
    (omega arith, omega arith)

-- A wireless interface that is named after `wlan`, and is no uplink to the WAN, is tinted as a
-- wired LAN port and yet has the icon of a radio: its name holds `lan` too.
wlan_is_tinted_lan :
    (f : NetworkInterface)
    → is_wan f ≡ false
    → includes f.name (codes "wlan") ≡ true
    → (tile_tint f ≡ lapis) × (tile_icon f ≡ radio)
unfolding tile_tint tile_icon is_lan is_wlan
wlan_is_tinted_lan f h k =
    let lan : includes f.name (codes "lan") ≡ true = includes-tail f.name (codes "lan") b'w' k in
    ground arith
