-- ===== src/Logs/Laws.antt =====
-- The node that a source is asked from, and the spinner (web/src/pages/LogsView.tsx).
use ophanim.Base.{
  ◌≡◌, refl, ◌≢◌, ◌⊎◌, inl, inr, Bool, true, false, not, ◌&&◌, some, none, List, [], ◌∷◌, ◌++◌,
  Text, codes, arith, ◌===◌, text_eq_instance, text_eq, text_eq_refl, or_text, find, any, is_empty,
  length, Bool-cases, is_some, drop, length-drop, nil_of_length, if◌then◌else◌,
}
use ophanim.Types.{ContainerStatus, DeviceNode}
use ophanim.Logs.{
  LogsTab, is_logs, LogsState, first_logs, head, is_container_source, is_device_source, log_node,
  device_option, container_option, fetch_logs, LogAnswer, end_fetch, refetch, select_source,
  select_tab, adopt_source, arrive, tick, toggle_tail,
}

find-append :
    {A : Type 0} (p : A → Bool) (before : List A) (a : A) (rest : List A)
    → any p before ≡ false
    → p a ≡ true
    → find p (before ++ a ∷ rest) ≡ some a
find-append p [] a rest none_before here = rw here refl
find-append p (b ∷ before) a rest none_before here = ground (arith, find-append p before a rest)

device_option-is_device_source : (d : DeviceNode) → is_device_source (device_option d) d ≡ true
unfolding is_device_source device_option text_eq
device_option-is_device_source d = ground (arith, text_eq_refl d.id)

container_option-is_container_source :
    (c : ContainerStatus) → is_container_source (container_option c) c ≡ true
unfolding is_container_source container_option
container_option-is_container_source c = rw (text_eq_refl c.name) refl

or_text-full : (s d : Text) → is_empty s ≡ false → or_text s d ≡ s
or_text-full [] d h = cc
or_text-full (c ∷ s) d h = refl

find-none_of : {A : Type 0} (p : A → Bool) (xs : List A) → any p xs ≡ false → find p xs ≡ none
find-none_of p [] h = refl
find-none_of p (x ∷ xs) h = ground (arith, find-none_of p xs)

-- Each option of the drop-down list asks the node that it names. A host's option asks that host, if
-- no container has the option's value as its name or identifier and no host in front of it answers
-- to the value; a container's option asks the container's node, if no container in front of it
-- answers to its name. The hosts and the container are taken to have a node.
pub log_node-option :
    (cs cs_before cs_after : List ContainerStatus) (c : ContainerStatus)
    (ds ds_before ds_after : List DeviceNode) (d : DeviceNode)
    → is_empty d.id ≡ false
    → any (is_container_source (device_option d)) cs ≡ false
    → any (is_device_source (device_option d)) ds_before ≡ false
    → is_empty c.node_id ≡ false
    → any (is_container_source (container_option c)) cs_before ≡ false
    → (log_node cs (ds_before ++ d ∷ ds_after) (device_option d) ≡ d.id)
      × (log_node (cs_before ++ c ∷ cs_after) ds (container_option c) ≡ c.node_id)
unfolding log_node
log_node-option cs cs_before cs_after c ds ds_before ds_after d d_has no_container no_host c_has
      first =
    (
      rw
          (
            find-none_of (is_container_source (device_option d)) cs no_container,
            find-append (is_device_source (device_option d)) ds_before d ds_after no_host
                (device_option-is_device_source d),
            or_text-full d.id
                (if device_option d === codes "host" then codes "local" else device_option d) d_has,
          )
          refl,
      rw
          (find-append (is_container_source (container_option c)) cs_before c cs_after first
            (container_option-is_container_source c))
          (or_text-full c.node_id _ c_has),
    )

-- The events of the console. An answer comes to any of the open requests.
pub data LogsStep (s : LogsState) : LogsState → Type 0 where
  source_selected : (source : Text) → LogsStep s (select_source source s)
  tab_selected : (t : LogsTab) → LogsStep s (select_tab t s)
  arrived : (initial : Text) (cs : List ContainerStatus) → LogsStep s (arrive initial cs s)
  ticked : LogsStep s (tick s)
  refreshed : LogsStep s (fetch_logs s.selected_source s)
  tail_toggled : LogsStep s (toggle_tail s)
  answered :
      (earlier later : List Text) (source : Text) (a : LogAnswer)
      → s.pending ≡ earlier ++ source ∷ later
      → LogsStep s (end_fetch a (earlier ++ later) s)

pub data LogsReach (s : LogsState) : LogsState → Type 0 where
  start : LogsReach s s
  after : {t u : LogsState} → LogsReach s t → LogsStep t u → LogsReach s u

-- The spinner turns for an open request.
abbrev IsAwaited : LogsState → Type 0
IsAwaited s = (s.loading ≡ false) ⊎ (s.pending ≢ [])

snoc-ne-nil : {A : Type 0} (xs : List A) (a : A) → xs ++ a ∷ [] ≢ []
snoc-ne-nil [] a e = cc
snoc-ne-nil (x ∷ xs) a e = cc

fetch_logs-IsAwaited :
    (source : Text) (s : LogsState) → IsAwaited s → IsAwaited (fetch_logs source s)
unfolding fetch_logs
fetch_logs-IsAwaited [] s h = h
fetch_logs-IsAwaited (c ∷ source) s h = inr (snoc-ne-nil s.pending (c ∷ source))

fetch_logs-awaits :
    (source : Text) (s : LogsState) → is_empty source ≡ false → (fetch_logs source s).pending ≢ []
unfolding fetch_logs
fetch_logs-awaits [] s h = cc
fetch_logs-awaits (c ∷ source) s h = snoc-ne-nil s.pending (c ∷ source)

refetch-IsAwaited : (s : LogsState) → IsAwaited s → IsAwaited (refetch s)
unfolding refetch
refetch-IsAwaited s h =
    elim (Bool-cases (not (is_empty s.selected_source) && is_logs s.active_tab)) [
      | inl e ↦
          rw e
            (inr (fetch_logs-awaits s.selected_source (record s { loading = true }) (ground arith)))
      | inr e ↦ rw e h
    ]

adopt_source-IsAwaited :
    (initial : Text) (cs : List ContainerStatus) (s : LogsState)
    → IsAwaited s
    → IsAwaited (adopt_source initial cs s)
unfolding adopt_source
adopt_source-IsAwaited initial cs s h = elim (Bool-cases (not (is_empty initial))) [
  | inl e ↦ rw e h
  | inr e ↦ elim (Bool-cases (is_empty s.selected_source && is_some (head cs))) [
    | inl f ↦ rw (e, f) h
    | inr f ↦ rw (e, f) h
  ]
]

if-IsAwaited :
    (b : Bool) (s t : LogsState) → IsAwaited s → IsAwaited t → IsAwaited (if b then s else t)
if-IsAwaited true s t h k = h
if-IsAwaited false s t h k = k

LogsStep-IsAwaited : {s t : LogsState} → LogsStep s t → IsAwaited s → IsAwaited t
LogsStep-IsAwaited {s} (source_selected source) h =
    unfold select_source in if-IsAwaited _ _ _ h (refetch-IsAwaited _ h)
LogsStep-IsAwaited {s} (tab_selected t) h =
    unfold select_tab in if-IsAwaited _ _ _ h (refetch-IsAwaited _ h)
LogsStep-IsAwaited {s} (arrived initial cs) h =
    unfold arrive in
    if-IsAwaited _ _ _ (adopt_source-IsAwaited initial cs s h)
      (refetch-IsAwaited _ (adopt_source-IsAwaited initial cs s h))
LogsStep-IsAwaited {s} ticked h =
    unfold tick in if-IsAwaited _ _ _ h (fetch_logs-IsAwaited s.selected_source s h)
LogsStep-IsAwaited {s} refreshed h = fetch_logs-IsAwaited s.selected_source s h
LogsStep-IsAwaited {s} tail_toggled h = unfold toggle_tail in h
LogsStep-IsAwaited {s} (answered earlier later source a e) h = unfold end_fetch in inl refl

LogsReach-IsAwaited :
    (initial : Text) (cs : List ContainerStatus) {s : LogsState}
    → LogsReach (first_logs initial cs) s
    → IsAwaited s
LogsReach-IsAwaited initial cs start = unfold first_logs in inl refl
LogsReach-IsAwaited initial cs (after r step) =
    LogsStep-IsAwaited step (LogsReach-IsAwaited initial cs r)

-- The answers that come to the open requests, one after the other.
abbrev pub answer_all : List LogAnswer → LogsState → LogsState
answer_all [] s = s
answer_all (a ∷ answers) s = answer_all answers (end_fetch a (drop 1 s.pending) s)

answer_all-loading :
    (answers : List LogAnswer) (s : LogsState)
    → IsAwaited s
    → length answers ≡ length s.pending
    → ((answer_all answers s).loading ≡ false) × ((answer_all answers s).pending ≡ [])
unfolding end_fetch
answer_all-loading [] s h e = (loading_of h, none_open)
  where
    none_open : s.pending ≡ []
    none_open = nil_of_length s.pending e

    loading_of : IsAwaited s → s.loading ≡ false
    loading_of (inl quiet) = quiet
    loading_of (inr open_request) = absurd (open_request none_open)
answer_all-loading (a ∷ answers) s h e =
    answer_all-loading answers (end_fetch a (drop 1 s.pending) s) (inl refl)
      (omega (arith, length-drop 1 s.pending))

-- Whatever is selected, refreshed and answered after the console is opened, the spinner stops: once
-- each open request is answered, by entries, by no array or by an error, nothing is loading and no
-- request is open.
pub LogsReach-answer_all :
    (initial : Text) (cs : List ContainerStatus) {s : LogsState} (answers : List LogAnswer)
    → LogsReach (first_logs initial cs) s
    → length answers ≡ length s.pending
    → ((answer_all answers s).loading ≡ false) × ((answer_all answers s).pending ≡ [])
LogsReach-answer_all initial cs {s} answers r e =
    answer_all-loading answers s (LogsReach-IsAwaited initial cs r) e
