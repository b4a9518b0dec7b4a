-- ===== src/Logs/Effects.antt =====
-- What the effects of the console do to a choice: answers that come late, and a target that was
-- handed in (web/src/pages/LogsView.tsx with web/src/App.tsx).
use ophanim.Base.{
  ◌≡◌, refl, ◌∙◌, Bool, true, false, List, [], ◌∷◌, ◌++◌, Text, arith, ◌===◌, text_eq_instance,
  is_empty, if◌then◌else◌,
}
use ophanim.Types.{ContainerStatus, LogEntry}
use ophanim.Logs.{
  LogsTab, logs, LogsState, entries_of, take_logs, fetch_logs, end_fetch, refetch, select_source,
  select_tab, adopt_source, arrive,
}

-- What the selection of another source does under the tab of the logs.
select_source-asks :
    (source : Text) (s : LogsState)
    → is_empty source ≡ false
    → (source === s.selected_source) ≡ false
    → s.active_tab ≡ logs
    → select_source source s
      ≡ record s { selected_source = source; loading = true; pending = s.pending ++ source ∷ [] }
unfolding select_source refetch fetch_logs
select_source-asks source s full other e = rw (other, full, e) refl

-- Two requests that are answered in the other order: when a second source is selected before the
-- first one's answer comes, and the answers come in the order second, first, the console shows the
-- first source's entries under the second source.
end_fetch-late :
    (a b : Text) (s : LogsState) (of_a of_b : List LogEntry)
    → (is_empty a ≡ false) × (is_empty b ≡ false)
    → ((a === s.selected_source) ≡ false) × ((b === a) ≡ false)
    → s.active_tab ≡ logs
    → s.pending ≡ []
    → let asked = select_source b (select_source a s) in
      let shown = end_fetch (entries_of of_a) [] (end_fetch (entries_of of_b) (a ∷ []) asked) in
      (asked.pending ≡ a ∷ b ∷ [])
      × (shown.selected_source ≡ b)
      × (shown.entries ≡ of_a)
      × (shown.loading ≡ false)
unfolding end_fetch take_logs
end_fetch-late a b s of_a of_b full other e none_open =
    rw
      (
        select_source-asks a s full.0 other.0 e,
        select_source-asks b
            (record s { selected_source = a; loading = true; pending = s.pending ++ a ∷ [] }) full.1
            other.1 e,
        none_open,
      )
      (refl, refl, refl, refl)

selected-refetch :
    (s : LogsState)
    → ((refetch s).selected_source ≡ s.selected_source) × ((refetch s).active_tab ≡ s.active_tab)
unfolding refetch fetch_logs
selected-refetch s = (ground arith, ground arith)

adopt_source-target :
    (initial : Text) (cs : List ContainerStatus) (s : LogsState)
    → is_empty initial ≡ false
    → adopt_source initial cs s ≡ record s { selected_source = initial; active_tab = logs }
unfolding adopt_source
adopt_source-target initial cs s h = rw h refl

if-target :
    (b : Bool) (initial : Text) (t : LogsState)
    → t.selected_source ≡ initial
    → t.active_tab ≡ logs
    → ((if b then t else refetch t).selected_source ≡ initial)
      × ((if b then t else refetch t).active_tab ≡ logs)
if-target true initial t h k = (h, k)
if-target false initial t h k = ((selected-refetch t).0 ∙ h, (selected-refetch t).1 ∙ k)

arrive-target :
    (initial : Text) (cs : List ContainerStatus) (s : LogsState)
    → is_empty initial ≡ false
    → ((arrive initial cs s).selected_source ≡ initial) × ((arrive initial cs s).active_tab ≡ logs)
unfolding arrive
arrive-target initial cs s h =
    rw (adopt_source-target initial cs s h)
      (if-target _ initial (record s { selected_source = initial; active_tab = logs }) refl refl)

-- A target that was handed in takes every choice back. If the console was opened for a target, then
-- whatever source or tab is chosen in it, the next list of containers that arrives puts the
-- target and the tab of the logs back.
arrive-select_source :
    (initial source : Text) (t : LogsTab) (cs : List ContainerStatus) (s : LogsState)
    → is_empty initial ≡ false
    → ((arrive initial cs (select_source source s)).selected_source ≡ initial)
      × ((arrive initial cs (select_tab t s)).active_tab ≡ logs)
arrive-select_source initial source t cs s h = (
  (arrive-target initial cs (select_source source s) h).0,
  (arrive-target initial cs (select_tab t s) h).1,
)
