-- ===== src/Dashboard/Columns.antt =====
-- The columns of the container table: which are shown, and what each row and card shows
-- (web/src/pages/Dashboard.tsx). A number that the source formats with `toFixed` stands with its
-- number of digits.
pub mod Laws
pub mod Stored
use ophanim.Base.{
  ℕ, ◌+◌, ◌*◌, Bool, true, false, not, Option, none, some, List, [], ◌∷◌, ◌++◌, Text, codes, Eq,
  eq_of_discrete, contains, without, length, filter, ◌&&◌, ◌===◌, text_eq_instance, ◌⊎◌, inl, inr,
  ltb, leb, if◌then◌else◌, or_default, or_text, to_upper, min, ◌==◌,
}
use ophanim.Types.{Quantity, units, ContainerStatus, DeviceNode}
use ophanim.Dashboard.Nodes.{NodeMeta, node_meta, node_of}
use ophanim.Dashboard.Containers.{is_running, Group, all_nodes}

pub data ColumnKey : Type 0 where
  name stack state cpu memory network disk image node restarts : ColumnKey

unfoldable pub ColumnKey-discrete : Discrete ColumnKey
ColumnKey-discrete = hlevel

instance abbrev pub column_eq : Eq ColumnKey
column_eq = eq_of_discrete ColumnKey-discrete

-- The keys of `ALL_COLUMNS`, in its order.
abbrev pub all_columns : List ColumnKey
all_columns = name ∷ stack ∷ state ∷ cpu ∷ memory ∷ network ∷ disk ∷ image ∷ node ∷ restarts ∷ []

-- `DEFAULT_COLUMNS`
abbrev pub default_columns : List ColumnKey
default_columns = name ∷ stack ∷ state ∷ cpu ∷ memory ∷ network ∷ image ∷ restarts ∷ []

-- `toggleColumn`: the last column stays.
unfoldable pub toggle_column : ColumnKey → List ColumnKey → List ColumnKey
toggle_column key visible =
    if contains visible key
    then (if ltb 1 (length visible) then without visible key else visible)
    else visible ++ key ∷ []

-- A number as it is shown: with `toFixed(digits)`, or a literal in its place.
pub data Figure : Type 0 where
  fixed : ℕ → Quantity → Figure
  literal : Text → Figure

-- A transfer rate as it is shown: in MB/s, in KB/s, or none, with the bytes moved so far.
pub data Rate : Type 0 where
  megabytes kilobytes : Quantity → Rate
  idle : Rate
  idle_total : ℕ → Rate

pub data Cell : Type 0 where
  text : Text → Cell
  badge : Text → Bool → Cell
  gauge : Figure → Quantity → Cell
  rate : Rate → Cell
  dash : Cell
  count : ℕ → Bool → Cell

-- `q || fallback`
abbrev pub or_quantity : Quantity → Quantity → Quantity
or_quantity q fallback = if q == 0 then fallback else q

-- `q ? q.toFixed(digits) : fallback`
abbrev pub figure_or : ℕ → Quantity → Text → Figure
figure_or digits q fallback = if q == 0 then literal fallback else fixed digits q

unfoldable pub cpu_gauge : ContainerStatus → Cell
cpu_gauge c =
    gauge (figure_or 1 c.cpu_percent (codes "0.1"))
      (min (or_quantity c.cpu_percent (units 1)) (units 100))

unfoldable pub memory_gauge : ContainerStatus → Cell
memory_gauge c =
    gauge (figure_or 0 c.memory_usage_mb (codes "32"))
      (min (or_quantity c.memory_percent (units 2)) (units 100))

-- The network cell of a running container: its rate, or its total above a tenth of a megabyte.
unfoldable pub network_rate : ContainerStatus → Rate
network_rate c =
    let r = or_default c.net_rx_rate_kbps 0 + or_default c.net_tx_rate_kbps 0 in
    let bytes = or_default c.network_rx_bytes 0 + or_default c.network_tx_bytes 0 in
    if leb (units 1024) r
    then megabytes r
    else if ltb 0 r
    then kilobytes r
    else if ltb (1024 * 1024) (10 * bytes)
    then idle_total bytes
    else idle

unfoldable pub disk_rate : ContainerStatus → Rate
disk_rate c =
    let r = or_default c.disk_read_rate_kbps 0 + or_default c.disk_write_rate_kbps 0 in
    if leb (units 1024) r then megabytes r else if ltb 0 r then kilobytes r else idle

-- A cell that only a running container fills.
abbrev when_running : ContainerStatus → Cell → Cell
when_running c cell = if is_running c then cell else dash

-- The header cells, in the order of the source.
unfoldable pub header_cells : List ColumnKey → List ColumnKey
header_cells visible = filter (contains visible) all_columns

-- The cells of a container, each behind the column that shows it.
unfoldable pub all_cells : Text → ContainerStatus → List (ColumnKey × Cell)
all_cells short_label c =
    (name, text c.name)
    ∷ (stack, text (or_text (or_default c.stack []) (codes "standalone")))
    ∷ (state, badge (to_upper c.state) (is_running c))
    ∷ (cpu, when_running c (cpu_gauge c))
    ∷ (memory, when_running c (memory_gauge c))
    ∷ (network, when_running c (rate (network_rate c)))
    ∷ (disk, when_running c (rate (disk_rate c)))
    ∷ (image, text c.image)
    ∷ (node, text short_label)
    ∷ (restarts, count c.restart_count (ltb 0 c.restart_count))
    ∷ []

-- A row of the table under the grouping by node; `short_label` is the group's.
unfoldable pub row_cells : List ColumnKey → Text → ContainerStatus → List (ColumnKey × Cell)
unfolding all_cells
row_cells visible short_label c = filter (λ p. contains visible p.0) (all_cells short_label c)

-- A row of the flat list.
unfoldable pub flat_row_cells :
    List DeviceNode → List ColumnKey → ContainerStatus → List (ColumnKey × Cell)
flat_row_cells devices visible c = row_cells visible (node_meta devices (node_of c)).short_label c

-- The table's body: an accordion of groups, or a flat list with a notice when it is empty.
pub data BodyRow : Type 0 where
  group_row : Text → Bool → ℕ → BodyRow
  container_row : List (ColumnKey × Cell) → BodyRow
  notice : ℕ → BodyRow

abbrev rows_of : List ColumnKey → Text → List ContainerStatus → List BodyRow
rows_of visible label [] = []
rows_of visible label (c ∷ cs) =
    container_row (row_cells visible label c) ∷ rows_of visible label cs

-- The rows of the groups: a header that spans all columns, and the containers unless collapsed.
unfoldable pub group_rows : List ColumnKey → (Text → Bool) → List Group → List BodyRow
group_rows visible collapsed [] = []
group_rows visible collapsed (g ∷ gs) =
    group_row g.node_id (collapsed g.node_id) (length visible)
      ∷ (if collapsed g.node_id then [] else rows_of visible g.meta.short_label g.containers)
    ++ group_rows visible collapsed gs

-- `toggleNodeCollapse`; the record as a function, false where it has no entry.
unfoldable pub toggle_collapse : Text → (Text → Bool) → Text → Bool
toggle_collapse i collapsed j = if j === i then not (collapsed i) else collapsed j

unfoldable pub flat_rows : List DeviceNode → List ColumnKey → List ContainerStatus → List BodyRow
unfolding flat_row_cells
flat_rows devices visible [] = []
flat_rows devices visible (c ∷ cs) =
    container_row (flat_row_cells devices visible c) ∷ flat_rows devices visible cs

-- The body of the table, with the notice behind it that no container matches.
unfoldable pub table_body :
    Bool
    → Text
    → (Text → Bool)
    → List DeviceNode
    → List ColumnKey
    → List Group
    → List ContainerStatus
    → List BodyRow
unfolding group_rows flat_rows
table_body group_by_node node_filter collapsed devices visible groups filtered =
    (if group_by_node && node_filter === all_nodes
      then group_rows visible collapsed groups
      else flat_rows devices visible filtered)
    ++ (if length filtered == 0 then notice (length visible) ∷ [] else [])

-- A container on a narrow screen; its gauges are there while it runs.
pub record Card : Type 0 where
  pub title : Text
  pub state : Text
  pub stack : Text
  pub footer : Text ⊎ ℕ
  pub gauges : Option (Cell × Cell)

abbrev card_of : ContainerStatus → Text ⊎ ℕ → Card
card_of c footer = record {
  title = c.name;
  state = to_upper c.state;
  stack = or_text (or_default c.stack []) (codes "standalone");
  footer = footer;
  gauges = if is_running c then some (cpu_gauge c, memory_gauge c) else none;
}

-- A card in a group shows the restarts, a card of the flat list the node.
unfoldable pub group_card : ContainerStatus → Card
group_card c = card_of c (inr c.restart_count)

unfoldable pub flat_card : List DeviceNode → ContainerStatus → Card
flat_card devices c = card_of c (inl (node_meta devices (node_of c)).short_label)
