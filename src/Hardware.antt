-- ===== src/Hardware.antt =====
-- The hardware inspector: its live metrics, its cores and its figures
-- (web/src/components/HardwareInspector.tsx).
pub mod Laws
use ophanim.Base.{
  ℕ, zero, suc, ◌+◌, ◌*◌, ◌/◌, ◌%◌, ℤ, sub_ℕ, Bool, true, false, not, ◌&&◌, ◌||◌, Option, none,
  some, List, [], ◌∷◌, ◌++◌, Text, codes, ◌==◌, ltb, leb, min, max, if◌then◌else◌, or_text,
  or_number, or_default, is_empty, get_elem?, split_on, trim, ◌===◌, text_eq_instance,
}
use ophanim.Types.{Quantity, units, HostMetrics}

-- The address of `fetchLive`; `encode` is `encodeURIComponent`.
unfoldable pub live_url : (Text → Text) → Text → Text
live_url encode node_id =
    if is_empty node_id
    then codes "/api/metrics"
    else codes "/api/metrics" ++ (codes "?node_id=" ++ encode node_id)

-- What a poll brings: an error, an answer that is not taken, for its status or because it has
-- neither a name nor a load, or the metrics of the node.
pub data LiveAnswer : Type 0 where
  failed refused unnamed : LiveAnswer
  live : HostMetrics → LiveAnswer

-- The state of the inspector: `liveMetrics`.
unfoldable pub end_live : LiveAnswer → Option HostMetrics → Option HostMetrics
end_live (live m) old = some m
end_live _ old = old

-- The effect on the metrics that the page hands in.
unfoldable pub adopt_metrics : Option HostMetrics → Option HostMetrics → Option HostMetrics
adopt_metrics initial old = initial

-- Does the inspector show anything?
unfoldable pub is_visible : Bool → Option HostMetrics → Bool
is_visible is_open none = false
is_visible is_open (some m) = is_open

-- `handleKeyDown`: does the key close the inspector?
unfoldable pub key_closes : Bool → Text → Bool
key_closes is_open key = key === codes "Escape" && is_open

-- `coreCount`
unfoldable pub core_count : HostMetrics → ℕ
core_count m = if m.cpu_cores == 0 then 4 else m.cpu_cores

pub record Core : Type 0 where
  pub core : ℕ
  pub usage : Quantity

-- The usage of one core, clamped; a core without a measurement takes the load of the whole.
unfoldable pub core_usage : HostMetrics → ℕ → Quantity
core_usage m i = max 0 (
    min (units 100)
      (or_default (get_elem? (or_default m.cpu_cores_usage []) i) m.cpu_usage_percent))

-- The entries of `cores` from the `i`-th on.
unfoldable pub cores_from : HostMetrics → ℕ → ℕ → List Core
unfolding core_usage
cores_from m i zero = []
cores_from m i (suc n) = record { core = i; usage = core_usage m i } ∷ cores_from m (i + 1) n

unfoldable pub cores : HostMetrics → List Core
unfolding cores_from core_count
cores m = cores_from m 0 (core_count m)

-- `cleanOS`: 35 is the number sign.
unfoldable pub clean_os : HostMetrics → Text
clean_os m =
    if is_empty m.os then codes "Linux" else trim (or_default (get_elem? (split_on 35 m.os) 0) [])

-- The title's node.
unfoldable pub shown_node : Option Text → HostMetrics → Text → Text
shown_node node_name m node_id = or_text (or_default node_name []) (or_text m.hostname node_id)

-- The hours and minutes of the uptime.
unfoldable pub uptime : HostMetrics → ℕ × ℕ
uptime m = (m.uptime_seconds / 3600, (m.uptime_seconds % 3600) / 60)

-- A number that is shown with so many digits, after a division.
pub data Shown : Type 0 where
  whole : Quantity → Text → Shown
  fixed : ℕ → Quantity → ℕ → Text → Shown
  fixed_of : ℕ → Quantity → ℕ → Quantity → ℕ → ℕ → Text → Shown
  constant : Text → Shown

-- The degree sign and its letter.
abbrev celsius : Text
celsius = 176 ∷ codes "C"

-- The temperature: a missing one, and one of zero, is shown as 52 degrees.
unfoldable pub thermals : HostMetrics → Shown
thermals m =
    let t = or_number m.cpu_temperature 0 in
    if t == 0 then constant (codes "52.0" ++ celsius) else fixed 1 t 1 celsius

unfoldable pub memory_shown : HostMetrics → Shown
memory_shown m =
    if ltb m.memory_total_mb (units 1024)
    then whole m.memory_used_mb (codes "MB")
    else fixed_of 1 m.memory_used_mb 1024 m.memory_total_mb 0 1024 (codes "G")

unfoldable pub storage_shown : HostMetrics → Shown
storage_shown m =
    if ltb m.disk_total_gb (units 1)
    then fixed 0 (m.disk_used_gb * 1024) 1 (codes "MB")
    else fixed_of 1 m.disk_used_gb 1 m.disk_total_gb 0 1 (codes "G")

-- The free memory, which is negative when more is used than there is: the megabytes, with the
-- divisor and the unit that they are shown in.
unfoldable pub free_memory : HostMetrics → ℤ × ℕ × Text
free_memory m =
    if ltb m.memory_total_mb (units 1024)
    then (sub_ℕ m.memory_total_mb m.memory_used_mb, 1, codes " MB")
    else (sub_ℕ m.memory_total_mb m.memory_used_mb, 1024, codes " GB")

-- The columns of the grid.
unfoldable pub grid_columns : ℕ → Text
grid_columns n =
    if leb n 2
    then codes "grid-cols-2"
    else if leb n 4
    then codes "grid-cols-2 sm:grid-cols-4"
    else if leb n 8
    then codes "grid-cols-4 sm:grid-cols-8"
    else codes "grid-cols-4 sm:grid-cols-5 md:grid-cols-10"

pub data CoreTint : Type 0 where
  high medium low : CoreTint

-- `isHigh` and `isMed`
unfoldable pub core_tint : Core → CoreTint
core_tint c =
    if ltb (units 85) c.usage then high else if ltb (units 55) c.usage then medium else low

-- The width of a core's bar, and of the memory's, in thousandths of a per cent.
unfoldable pub core_bar : Core → Quantity
core_bar c = min c.usage (units 100)

unfoldable pub memory_bar : HostMetrics → Quantity
memory_bar m = min m.memory_percent (units 100)
