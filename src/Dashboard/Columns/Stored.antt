-- ===== src/Dashboard/Columns/Stored.antt =====
-- The selected columns in the storage (web/src/pages/Dashboard.tsx). What is stored is taken over
-- as it parses; only the page writes it.
use ophanim.Base.{
  ◌≡◌, refl, ◌≢◌, Option, none, some, List, [], ◌∷◌, Text, or_default, contains, distinct,
}
use ophanim.Dashboard.Columns.{ColumnKey, default_columns, toggle_column, ColumnKey-discrete}
use ophanim.Dashboard.Columns.Laws.{IsVisible, toggle_column_lem}

-- The initialiser of `visibleColumns`; `parse` is `JSON.parse`, `none` when that throws.
unfoldable pub load_columns : (Text → Option (List ColumnKey)) → Option Text → List ColumnKey
load_columns parse none = default_columns
load_columns parse (some []) = default_columns
load_columns parse (some (c ∷ saved)) = or_default (parse (c ∷ saved)) default_columns

-- The effect on `visibleColumns`; `stringify` is `JSON.stringify`.
unfoldable pub stored_columns : (List ColumnKey → Text) → List ColumnKey → Option Text
stored_columns stringify visible = some (stringify visible)

module _ (parse : Text → Option (List ColumnKey)) (stringify : List ColumnKey → Text) where
  -- A toggle, or a new load of the page.
  data ColumnStep (visible : List ColumnKey) : List ColumnKey → Type 0 where
    toggled : (key : ColumnKey) → ColumnStep visible (toggle_column key visible)
    reloaded : ColumnStep visible (load_columns parse (stored_columns stringify visible))

  data ColumnReach (visible : List ColumnKey) : List ColumnKey → Type 0 where
    start : ColumnReach visible visible
    after : {v u : List ColumnKey} → ColumnReach visible v → ColumnStep v u → ColumnReach visible u

load_columns-text :
    (parse : Text → Option (List ColumnKey)) (t : Text) (visible : List ColumnKey)
    → t ≢ []
    → parse t ≡ some visible
    → load_columns parse (some t) ≡ visible
unfolding load_columns
load_columns-text parse [] visible full e = absurd (full refl)
load_columns-text parse (c ∷ t) visible full e = rw e refl

default_columns-IsVisible : IsVisible default_columns
unfolding contains distinct ColumnKey-discrete
default_columns-IsVisible = record { some_column = λ e. cc; no_repeat = refl }

-- On a page that starts without stored columns, after any toggles and reloads, at least one column
-- is shown and none twice, if `JSON.parse` inverts `JSON.stringify` on lists of columns and no
-- text that this writes is empty.
ColumnReach-IsVisible :
    (parse : Text → Option (List ColumnKey)) (stringify : List ColumnKey → Text)
    → ((v : List ColumnKey) → stringify v ≢ [])
    → ((v : List ColumnKey) → parse (stringify v) ≡ some v)
    → {visible : List ColumnKey} → ColumnReach parse stringify (load_columns parse none) visible
    → IsVisible visible
unfolding load_columns stored_columns
ColumnReach-IsVisible parse stringify full inverts start = default_columns-IsVisible
ColumnReach-IsVisible parse stringify full inverts (after r step) =
    go step (ColumnReach-IsVisible parse stringify full inverts r)
  where
    go : {v u : List ColumnKey} → ColumnStep parse stringify v u → IsVisible v → IsVisible u
    go {v} (toggled key) h = (toggle_column_lem key v h).0
    go {v} reloaded h = rw (load_columns-text parse (stringify v) v (full v) (inverts v)) h
