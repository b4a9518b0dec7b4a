-- ===== src/Dashboard/Interfaces/Sockets.antt =====
-- The panel of the network sockets: collapsed or not, its pills and its banner
-- (web/src/pages/Dashboard.tsx).
use ophanim.Base.{
  ℕ, Bool, true, false, not, ◌&&◌, List, [], Text, codes, filter, length, ltb, ◌===◌,
  text_eq_instance, if◌then◌else◌, or_default, ◌==◌, Comparator,
}
use ophanim.Types.{NetworkInterface}
use ophanim.App.Panels.{Storage, load_collapsed, store}
use ophanim.Dashboard.Interfaces.{is_major_uplink, sorted_interfaces, filtered_interfaces}

-- `isNetSocketsCollapsed` and `netSocketFilter`
pub record SocketState : Type 0 where
  pub is_collapsed : Bool
  pub only_uplinks : Bool

unfoldable pub first_sockets : Storage → SocketState
unfolding load_collapsed
first_sockets storage = record { is_collapsed = load_collapsed storage; only_uplinks = true }

-- The effect on `isNetSocketsCollapsed`
unfoldable pub store_sockets : SocketState → Storage → Storage
unfolding store
store_sockets s storage = store s.is_collapsed storage

unfoldable pub toggle_sockets : SocketState → SocketState
toggle_sockets s = record s { is_collapsed = not s.is_collapsed }

unfoldable pub expand_sockets : SocketState → SocketState
expand_sockets s = record s { is_collapsed = false }

unfoldable pub set_socket_filter : Bool → SocketState → SocketState
set_socket_filter uplinks s = record s { only_uplinks = uplinks }

-- The pills of the filter stand there for more than four sockets of an open panel.
unfoldable pub has_pills : SocketState → List NetworkInterface → Bool
has_pills s raw = ltb 0 (length raw) && (not s.is_collapsed && ltb 4 (length raw))

-- What stands below the header: a notice, a banner with two counts, or the tiles.
pub data SocketPanel : Type 0 where
  no_sockets : SocketPanel
  banner : ℕ → ℕ → SocketPanel
  tiles : List NetworkInterface → SocketPanel

module _ (locale_compare : Comparator Text) where
  unfoldable pub socket_panel : SocketState → List NetworkInterface → SocketPanel
  socket_panel s raw =
      if length raw == 0
      then no_sockets
      else if s.is_collapsed
      then banner (length raw)
          (length (filter is_major_uplink (sorted_interfaces locale_compare raw)))
      else tiles (filtered_interfaces locale_compare s.only_uplinks raw)

-- The type that a tile names, and the label of its link.
unfoldable pub type_label : NetworkInterface → Text
type_label f =
    if or_default f.type [] === [] then codes "Physical Interface" else or_default f.type []

unfoldable pub link_label : NetworkInterface → Text
link_label f = if f.is_up then codes "LINK UP" else codes "DOWN"
