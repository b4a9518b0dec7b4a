-- ===== src/Dashboard/Interfaces.antt =====
-- The network interfaces of the selected node: their tiers, their order, and what each tile shows
-- (web/src/pages/Dashboard.tsx).
pub mod Laws
pub mod Sockets
use ophanim.Base.{
  ℕ, ◌+◌, ◌*◌, ◌/◌, Bool, true, false, not, ◌&&◌, ◌||◌, Option, none, some, List, [], ◌∷◌, map,
  Text, codes, ◌===◌, text_eq_instance, if◌then◌else◌, or_default, includes, starts_with, to_lower,
  filter, any, leb, ltb, ◌==◌, compare, Comparator, Ordering, sort, max, min,
}
use ophanim.Types.{NetworkInterface, Quantity, units}
use ophanim.Dashboard.Columns.{Rate, megabytes, kilobytes}

-- `(iface.type || '').toLowerCase()`
unfoldable pub lower_type : NetworkInterface → Text
lower_type f = to_lower (or_default f.type [])

unfoldable pub lower_name : NetworkInterface → Text
lower_name f = to_lower f.name

-- `n.startsWith(p)` for one of several prefixes.
unfoldable pub starts_with_any : Text → List Text → Bool
starts_with_any n ps = any (starts_with n) ps

-- `getInterfaceTier`
unfoldable pub interface_tier : NetworkInterface → ℕ
unfolding lower_type lower_name starts_with_any
interface_tier f =
    let n = lower_name f in
    let t = lower_type f in
    if includes t (codes "wan") || includes n (codes "wan") || includes n (codes "pppoe")
    then 1
    else if includes t (codes "lan") || includes n (codes "br-lan") || (n === codes "lan")
    then 2
    else if includes t (codes "physical")
        || starts_with_any n
            (codes "eth" ∷ codes "eno" ∷ codes "ens" ∷ codes "enp" ∷ codes "lan" ∷ codes "net" ∷ [])
    then 3
    else if includes t (codes "hypervisor") || starts_with_any n (codes "vmbr" ∷ codes "bond" ∷ [])
    then 4
    else if includes t (codes "wireless")
        || starts_with_any n (codes "wlan" ∷ codes "phy" ∷ codes "ath" ∷ codes "ra" ∷ [])
    then 5
    else if includes t (codes "vpn")
        || starts_with_any n (codes "tailscale" ∷ codes "wg" ∷ codes "tun" ∷ [])
    then 6
    else if n === codes "docker0"
    then 7
    else if starts_with n (codes "br-")
    then 8
    else if starts_with n (codes "veth")
    then 9
    else 10

-- `isMajorUplink`
unfoldable pub is_major_uplink : NetworkInterface → Bool
is_major_uplink f = leb (interface_tier f) 7

module _ (locale_compare : Comparator Text) where
  unfoldable pub interface_order : Comparator NetworkInterface
  interface_order a b =
      if not (interface_tier a == interface_tier b)
      then compare (interface_tier a) (interface_tier b)
      else locale_compare a.name b.name

  -- `sortedAllIfaces`
  unfoldable pub sorted_interfaces : List NetworkInterface → List NetworkInterface
  sorted_interfaces raw = sort interface_order raw

  -- `filteredIfaces`; the flag says that the filter is on `uplinks`.
  unfoldable pub filtered_interfaces : Bool → List NetworkInterface → List NetworkInterface
  filtered_interfaces uplinks raw =
      if uplinks && any is_major_uplink (sorted_interfaces raw)
      then filter is_major_uplink (sorted_interfaces raw)
      else sorted_interfaces raw

-- `Math.max(...ifaces.map(i => i.f || 0), 1)`
unfoldable pub max_rate : (NetworkInterface → Quantity) → List NetworkInterface → Quantity
max_rate f [] = units 1
max_rate f (i ∷ is) = max (f i) (max_rate f is)

-- The width of a bar, in thousandths of a per cent: between 3 and 100 per cent.
unfoldable pub bar_width : Quantity → Quantity → Quantity
bar_width q most = min (units 100) (max (units 3) (q * units 100 / most))

-- The rate of an interface: in megabytes above 1024 kilobytes.
unfoldable pub interface_rate : Quantity → Rate
interface_rate q = if ltb (units 1024) q then megabytes q else kilobytes q

-- The four flags of a tile; here the case of the letters counts.
unfoldable pub type_has : NetworkInterface → Text → Bool
type_has f t = includes (or_default f.type []) t

unfoldable pub is_wan : NetworkInterface → Bool
unfolding type_has
is_wan f =
    type_has f (codes "WAN") || includes f.name (codes "wan") || includes f.name (codes "pppoe")

unfoldable pub is_lan : NetworkInterface → Bool
unfolding type_has
is_lan f =
    type_has f (codes "LAN") || includes f.name (codes "br-lan") || includes f.name (codes "lan")

unfoldable pub is_wlan : NetworkInterface → Bool
unfolding type_has
is_wlan f =
    type_has f (codes "Wireless") || includes f.name (codes "wlan") || includes f.name (codes "phy")

unfoldable pub is_vpn : NetworkInterface → Bool
unfolding type_has
is_vpn f =
    type_has f (codes "VPN") || includes f.name (codes "tailscale") || includes f.name (codes "wg")

pub data Tint : Type 0 where
  amber lapis teal purple plain : Tint

-- The tint of a tile.
unfoldable pub tile_tint : NetworkInterface → Tint
tile_tint f =
    if is_wan f
    then amber
    else if is_lan f
    then lapis
    else if is_wlan f
    then teal
    else if is_vpn f
    then purple
    else plain

pub data Symbol : Type 0 where
  globe radio shield network : Symbol

-- The icon of a tile.
unfoldable pub tile_icon : NetworkInterface → Symbol
tile_icon f =
    if is_wan f then globe else if is_wlan f then radio else if is_vpn f then shield else network
