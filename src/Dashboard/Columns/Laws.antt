-- ===== src/Dashboard/Columns/Laws.antt =====
-- The container table of web/src/pages/Dashboard.tsx: its columns, rows and figures.
use ophanim.Base.{
  ℕ, ◌+◌, ◌≤◌, ◌<◌, ◌≡◌, refl, ap, ◌≢◌, Bool, true, false, not, List, [], ◌∷◌, map, Text, arith,
  Bool-cases, inl, inr, ◌⊎◌, filter, length, contains, distinct, ◌===◌, without-distinct,
  append-distinct, contains-filter_ne, contains-snoc, if◌then◌else◌, ltb, length-append, or_default,
  length-without, length-filter-contains,
}
use ophanim.Types.{units, DeviceNode, ContainerStatus}
use ophanim.Dashboard.Columns.{
  ColumnKey, ColumnKey-discrete, column_eq, name, all_columns, toggle_column, header_cells,
  row_cells, flat_row_cells, all_cells, Cell, network_rate, disk_rate, Rate, megabytes, kilobytes,
  idle, idle_total, cpu_gauge, memory_gauge, gauge,
}

-- The visible columns: at least one, and none twice.
pub record IsVisible (visible : List ColumnKey) : Type 0 where
  pub some_column : visible ≢ []
  pub no_repeat : distinct visible ≡ true

-- What a toggle does: the columns stay in order, and either the only one was to be hidden and
-- stays, or exactly the one column changes.
abbrev pub Toggled : ColumnKey → List ColumnKey → Type 0
Toggled key visible =
    IsVisible (toggle_column key visible)
    × ((visible ≡ key ∷ []) × (toggle_column key visible ≡ visible)
        ⊎ ((k : ColumnKey)
            → contains (toggle_column key visible) k
              ≡ (if key === k then not (contains visible k) else contains visible k)))

only_column :
    (key : ColumnKey) (visible : List ColumnKey)
    → contains visible key ≡ true
    → ltb 1 (length visible) ≡ false
    → visible ≡ key ∷ []
unfolding contains
only_column key [] c h = cc
only_column key (k ∷ []) c h = ap (λ x. x ∷ []) ((column_eq.beq_iff k key).0 (ground arith))
only_column key (k ∷ j ∷ ks) c h = absurd (ground arith)

toggle_column_off :
    (key : ColumnKey) (visible : List ColumnKey)
    → IsVisible visible
    → contains visible key ≡ true
    → ltb 1 (length visible) ≡ true
    → Toggled key visible
unfolding toggle_column
toggle_column_off key visible v shown many =
    rw (shown, many)
      (
        record {
          some_column = λ e.
              absurd (
                ground (arith, length-without visible key v.no_repeat shown, ap (λ l. length l) e));
          no_repeat = without-distinct visible key v.no_repeat;
        },
        inr (λ k. ground (arith, contains-filter_ne visible key k, column_eq.beq_iff key k)),
      )

toggle_column_on :
    (key : ColumnKey) (visible : List ColumnKey)
    → IsVisible visible
    → contains visible key ≡ false
    → Toggled key visible
unfolding toggle_column
toggle_column_on key visible v hidden = rw hidden (
  record {
    some_column =
        λ e. absurd (ground (arith, length-append visible (key ∷ []), ap (λ l. length l) e));
    no_repeat = append-distinct visible key v.no_repeat hidden;
  },
  inr (λ k. ground (arith, contains-snoc visible key k, column_eq.beq_iff key k)),
)

-- A toggle keeps at least one column and repeats none. It flips its own column and no other, but
-- for the only visible one, which stays.
pub toggle_column_lem :
    (key : ColumnKey) (visible : List ColumnKey) → IsVisible visible → Toggled key visible
toggle_column_lem key visible v = elim (Bool-cases (contains visible key)) [
  | inl shown ↦ elim (Bool-cases (ltb 1 (length visible))) [
    | inl many ↦ toggle_column_off key visible v shown many
    | inr one ↦
        let same : toggle_column key visible ≡ visible = unfold toggle_column in rw (shown, one) in
        (rw same v, inl (only_column key visible shown one, same))
  ]
  | inr hidden ↦ toggle_column_on key visible v hidden
]

contains-all_columns : (k : ColumnKey) → contains all_columns k ≡ true
unfolding contains ColumnKey-discrete
contains-all_columns name = refl
contains-all_columns _ = refl

all_columns-distinct : distinct all_columns ≡ true
unfolding contains distinct ColumnKey-discrete
all_columns-distinct = refl

keys-filter :
    (q : ColumnKey → Bool) (ps : List (ColumnKey × Cell))
    → map (λ p. p.0) (filter (λ p. q p.0) ps) ≡ filter q (map (λ p. p.0) ps)
keys-filter q [] = refl
keys-filter q ((k, c) ∷ ps) = ground (arith, keys-filter q ps)

-- Every row of the table, in a group or in the flat list, has its cells under the header's columns
-- in the header's order; if no column is selected twice there are as many as are selected, which
-- is what the cells that span the table assume.
pub row_cells_lem :
    (visible : List ColumnKey) (label : Text) (devices : List DeviceNode) (c : ContainerStatus)
    → distinct visible ≡ true
    → (map (λ p. p.0) (row_cells visible label c) ≡ header_cells visible)
      × (map (λ p. p.0) (flat_row_cells devices visible c) ≡ header_cells visible)
      × (length (header_cells visible) ≡ length visible)
row_cells_lem visible label devices c d = (
  unfold row_cells header_cells in keys-filter (contains visible) (all_cells label c),
  unfold flat_row_cells row_cells header_cells in keys-filter (contains visible) (all_cells _ c),
  unfold header_cells in
      length-filter-contains all_columns all_columns-distinct contains-all_columns visible d,
)

-- What a rate says of the number behind it.
abbrev pub RateFits : Rate → ℕ → Type 0
RateFits (megabytes q) r = (q ≡ r) × (units 1024 ≤ r)
RateFits (kilobytes q) r = (q ≡ r) × (0 < r) × (r < units 1024)
RateFits idle r = r ≡ 0
RateFits (idle_total n) r = (r ≡ 0) × (0 < n)

-- The rates are shown in megabytes from 1024 kilobytes on, in kilobytes below, and as idle only at
-- zero; a total is never zero.
rates_fit :
    (c : ContainerStatus)
    → RateFits (network_rate c) (or_default c.net_rx_rate_kbps 0 + or_default c.net_tx_rate_kbps 0)
      × RateFits
          (disk_rate c)
          (or_default c.disk_read_rate_kbps 0 + or_default c.disk_write_rate_kbps 0)
unfolding network_rate disk_rate
rates_fit c = ground arith

-- What a bar is inside its track.
abbrev pub BarFits : Cell → Type 0
BarFits (gauge f w) = (0 < w) × (w ≤ units 100)
BarFits _ = ⊥

-- The bars of both gauges are never empty and never wider than their tracks.
gauges_fit : (c : ContainerStatus) → BarFits (cpu_gauge c) × BarFits (memory_gauge c)
unfolding cpu_gauge memory_gauge
gauges_fit c = ground arith
