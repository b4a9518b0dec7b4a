-- ===== src/Chart/History.antt =====
-- The history that the chart asks for and shows, and what is chosen in it
-- (web/src/components/TelemetryChart.tsx). The requests without an answer are a list in the state.
pub mod Laws
pub mod Targets
use ophanim.Base.{
  ℕ, Bool, true, false, not, ◌&&◌, Option, none, some, List, [], ◌∷◌, ◌++◌, Text, codes, ◌===◌,
  text_eq_instance, if◌then◌else◌, or_text, or_default, to_upper,
}
use ophanim.Types.{MetricPoint, DeviceNode, ContainerStatus}
use ophanim.Chart.{
  TimeRange, minutes_15, hour_1, hours_6, hours_24, range_name, MetricTab, cpu_tab, host_prefix,
  history_url,
}

-- The values of the options of the target selector.
unfoldable pub device_target : DeviceNode → Text
device_target d = if d.id === codes "local-lxc" then codes "host" else host_prefix ++ d.id

unfoldable pub container_target : ContainerStatus → Text
container_target c = c.name

-- Two ranges are the same when their names are.
unfoldable pub same_range : TimeRange → TimeRange → Bool
unfolding range_name
same_range r q = range_name r === range_name q

-- A request is kept with the target and the range that it is for.
pub record HistoryRequest : Type 0 where
  pub target : Text
  pub range : TimeRange
  pub url : Text

-- The state of the chart; `devices_seen` are the devices that the running interval closed over.
pub record HistoryState : Type 0 where
  pub target : Text
  pub history : List MetricPoint
  pub range : TimeRange
  pub metric_tab : MetricTab
  pub loading : Bool
  pub hover_index : Option ℕ
  pub devices_seen : List DeviceNode
  pub pending : List HistoryRequest

-- The state before the first effect.
unfoldable pub first_history : Text → HistoryState
first_history target = record {
  target = target;
  history = [];
  range = hour_1;
  metric_tab = cpu_tab;
  loading = false;
  hover_index = none;
  devices_seen = [];
  pending = [];
}

-- What `fetchHistory` is answered with: an exception, JSON that is no array, or the points.
pub data HistoryAnswer : Type 0 where
  thrown not_array : HistoryAnswer
  points_of : List MetricPoint → HistoryAnswer

unfoldable pub take_history : HistoryAnswer → List MetricPoint → List MetricPoint
take_history thrown old = old
take_history not_array old = old
take_history (points_of pts) old = pts

-- `fetchHistory` from the answer on, with its `finally`; `rest` is still unanswered.
unfoldable pub end_history : HistoryAnswer → List HistoryRequest → HistoryState → HistoryState
unfolding take_history
end_history a rest s = record s {
  history = take_history a s.history;
  loading = false;
  pending = rest;
}

module _ (encode : Text → Text) where
  -- The request of `fetchHistory` for the devices of a rendering.
  unfoldable pub request : List DeviceNode → Text → TimeRange → HistoryRequest
  unfolding history_url
  request devices target range = record {
    target = target;
    range = range;
    url = history_url encode devices target range;
  }

  -- `fetchHistory` up to its request.
  unfoldable pub fetch_history : List DeviceNode → HistoryState → HistoryState
  unfolding request
  fetch_history devices s = record s {
    loading = true;
    pending = s.pending ++ request devices s.target s.range ∷ [];
  }

  -- The effect on the target and the range: a request now, and an interval for these devices.
  unfoldable pub start_interval : List DeviceNode → HistoryState → HistoryState
  unfolding fetch_history
  start_interval devices s = fetch_history devices (record s { devices_seen = devices })

  -- The selector of the target and the buttons of the range, with the effect that follows.
  unfoldable pub select_target : List DeviceNode → Text → HistoryState → HistoryState
  unfolding start_interval
  select_target devices target s =
      if target === s.target then s else start_interval devices (record s { target = target })

  unfoldable pub select_range : List DeviceNode → TimeRange → HistoryState → HistoryState
  unfolding start_interval same_range
  select_range devices r s =
      if same_range r s.range then s else start_interval devices (record s { range = r })

  -- A tick of the interval.
  unfoldable pub poll_history : HistoryState → HistoryState
  unfolding fetch_history
  poll_history s = fetch_history s.devices_seen s

unfoldable pub select_metric : MetricTab → HistoryState → HistoryState
select_metric tab s = record s { metric_tab = tab }

unfoldable pub set_hover : Option ℕ → HistoryState → HistoryState
set_hover hover s = record s { hover_index = hover }

-- What stands behind the name of a container's option.
unfoldable pub target_mark : ContainerStatus → Text
target_mark c =
    if c.state === codes "running" then [] else codes "[" ++ to_upper c.state ++ codes "]"

unfoldable pub target_stack : ContainerStatus → Text
target_stack c = or_text (or_default c.stack []) (codes "standalone")
