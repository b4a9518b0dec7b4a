-- ===== src/Chart/History/Laws.antt =====
-- The history that is shown is the one that was chosen last
-- (web/src/components/TelemetryChart.tsx).
use ophanim.Base.{
  ℕ, suc, ◌≡◌, refl, ◌∙◌, Bool, true, false, List, [], ◌∷◌, ◌++◌, Text, arith, length, ◌===◌,
  text_eq_instance, if◌then◌else◌, Option, ap, sym, drop, length-drop, nil_of_length,
}
use ophanim.Types.{DeviceNode, MetricPoint}
use ophanim.Chart.{TimeRange, MetricTab}
use ophanim.Chart.History.{
  HistoryRequest, HistoryState, first_history, HistoryAnswer, thrown, not_array, points_of,
  take_history, end_history, request, fetch_history, start_interval, select_target, same_range,
  select_range, poll_history, select_metric, set_hover,
}

-- The request that was sent last, or another when none is open.
abbrev pub latest : List HistoryRequest → HistoryRequest → HistoryRequest
latest [] r = r
latest (q ∷ qs) r = latest qs q

latest-append : (qs : List HistoryRequest) (q r : HistoryRequest) → latest (qs ++ q ∷ []) r ≡ q
latest-append [] q r = refl
latest-append (p ∷ qs) q r = latest-append qs q p

-- The answers, in the order of the requests.
abbrev pub answer_all : List HistoryAnswer → HistoryState → HistoryState
answer_all [] s = s
answer_all (a ∷ answers) s = answer_all answers (end_history a (drop 1 s.pending) s)

module _ (encode : Text → Text) where
  -- The events of the chart, with the answers in the order of the requests.
  pub data HistoryStep (s : HistoryState) : HistoryState → Type 0 where
    target_selected :
        (devices : List DeviceNode) (target : Text)
        → HistoryStep s (select_target encode devices target s)
    range_selected :
        (devices : List DeviceNode) (r : TimeRange)
        → HistoryStep s (select_range encode devices r s)
    polled : HistoryStep s (poll_history encode s)
    refreshed : (devices : List DeviceNode) → HistoryStep s (fetch_history encode devices s)
    metric_selected : (tab : MetricTab) → HistoryStep s (select_metric tab s)
    hovered : (hover : Option ℕ) → HistoryStep s (set_hover hover s)
    answered :
        (a : HistoryAnswer) (r : HistoryRequest) (rest : List HistoryRequest)
        → s.pending ≡ r ∷ rest
        → HistoryStep s (end_history a rest s)

  pub data HistoryReach (s : HistoryState) : HistoryState → Type 0 where
    start : HistoryReach s s
    after : {t u : HistoryState} → HistoryReach s t → HistoryStep t u → HistoryReach s u

  -- The last request, if one is open, is for the target and the range that are chosen, by some
  -- list of devices.
  abbrev IsCurrent : HistoryState → Type 0
  IsCurrent s =
      (devices : List DeviceNode) × (latest s.pending (request encode devices s.target s.range)
        ≡ request encode devices s.target s.range)

  fetch_history-IsCurrent :
      (devices : List DeviceNode) (s : HistoryState) → IsCurrent (fetch_history encode devices s)
  unfolding fetch_history
  fetch_history-IsCurrent devices s = (
    devices,
    latest-append s.pending (request encode devices s.target s.range)
        (request encode devices s.target s.range),
  )

  start_interval-IsCurrent :
      (devices : List DeviceNode) (s : HistoryState) → IsCurrent (start_interval encode devices s)
  unfolding start_interval
  start_interval-IsCurrent devices s =
      fetch_history-IsCurrent devices (record s { devices_seen = devices })

  if-IsCurrent :
      (b : Bool) (s t : HistoryState) → IsCurrent s → IsCurrent t → IsCurrent (if b then s else t)
  if-IsCurrent true s t h k = h
  if-IsCurrent false s t h k = k

  latest-tail :
      (r : HistoryRequest) (rest : List HistoryRequest) (q : HistoryRequest)
      → latest (r ∷ rest) q ≡ q
      → latest rest q ≡ q
  latest-tail r [] q h = refl
  latest-tail r (p ∷ rest) q h = h

  HistoryStep-IsCurrent : {s t : HistoryState} → HistoryStep s t → IsCurrent s → IsCurrent t
  HistoryStep-IsCurrent {s} (target_selected devices target) h =
      unfold select_target in
      if-IsCurrent (target === s.target) s
        (start_interval encode devices (record s { target = target })) h
        (start_interval-IsCurrent devices (record s { target = target }))
  HistoryStep-IsCurrent {s} (range_selected devices r) h =
      unfold select_range in
      if-IsCurrent (same_range r s.range) s (start_interval encode devices (record s { range = r }))
        h (start_interval-IsCurrent devices (record s { range = r }))
  HistoryStep-IsCurrent {s} polled h =
      unfold poll_history in fetch_history-IsCurrent s.devices_seen s
  HistoryStep-IsCurrent {s} (refreshed devices) h = fetch_history-IsCurrent devices s
  HistoryStep-IsCurrent {s} (metric_selected tab) h = unfold select_metric in h
  HistoryStep-IsCurrent {s} (hovered hover) h = unfold set_hover in h
  HistoryStep-IsCurrent {s} (answered a r rest e) h =
      unfold end_history in
      (
        h.0,
        latest-tail r rest (request encode h.0 s.target s.range)
            (ap (λ ps. latest ps (request encode h.0 s.target s.range)) (sym e) ∙ h.1),
      )

  HistoryReach-IsCurrent :
      (devices : List DeviceNode) (initial : Text) {s : HistoryState}
      → HistoryReach (start_interval encode devices (first_history initial)) s
      → IsCurrent s
  HistoryReach-IsCurrent devices initial start =
      start_interval-IsCurrent devices (first_history initial)
  HistoryReach-IsCurrent devices initial (after r step) =
      HistoryStep-IsCurrent step (HistoryReach-IsCurrent devices initial r)

-- One more answer than there are answers in `earlier`, the last of them with points.
history-answer_all :
    (earlier : List HistoryAnswer) (pts : List MetricPoint) (s : HistoryState)
    → length s.pending ≡ suc (length earlier)
    → answer_all (earlier ++ points_of pts ∷ []) s
      ≡ record s { history = pts; loading = false; pending = [] }
unfolding end_history take_history
history-answer_all [] pts s e =
    rw (nil_of_length (drop 1 s.pending) (omega (arith, length-drop 1 s.pending))) refl
history-answer_all (a ∷ earlier) pts s e =
    history-answer_all earlier pts (end_history a (drop 1 s.pending) s)
      (omega (arith, length-drop 1 s.pending))

latest-split :
    (r : HistoryRequest) (rest : List HistoryRequest)
    → (before : List HistoryRequest) × (r ∷ rest ≡ before ++ latest rest r ∷ [])
latest-split r [] = ([], refl)
latest-split r (q ∷ rest) =
    let (before, e) = latest-split q rest in (r ∷ before, ap (λ qs. r ∷ qs) e)

-- Whatever is chosen, polled and answered in the order of the requests after the chart is opened,
-- the open request that was sent last is for the target and the range that are chosen now. Once
-- each open request is answered in that order, and the last one by points, the chart shows those
-- points, its spinner stops, no request is open, and nothing else has changed.
pub HistoryReach-answer_all :
    (encode : Text → Text) (devices : List DeviceNode) (initial : Text) {s : HistoryState}
    (earlier : List HistoryAnswer) (pts : List MetricPoint)
    → HistoryReach encode (start_interval encode devices (first_history initial)) s
    → length s.pending ≡ suc (length earlier)
    → (answer_all (earlier ++ points_of pts ∷ []) s
        ≡ record s { history = pts; loading = false; pending = [] })
      × (before : List HistoryRequest) × (seen : List DeviceNode) × (s.pending
          ≡ before ++ request encode seen s.target s.range ∷ [])
HistoryReach-answer_all encode devices initial {s} earlier pts r e =
    let (seen, current) = HistoryReach-IsCurrent encode devices initial r in
    let (before, split) = ends_latest s.pending (request encode seen s.target s.range) e in
    (history-answer_all earlier pts s e, before, seen, split ∙ ap (λ q. before ++ q ∷ []) current)
  where
    ends_latest :
        (qs : List HistoryRequest) (q : HistoryRequest)
        → length qs ≡ suc (length earlier)
        → (before : List HistoryRequest) × (qs ≡ before ++ latest qs q ∷ [])
    ends_latest [] q h = absurd (omega (arith, h))
    ends_latest (p ∷ qs) q h = latest-split p qs

-- A request that is not answered by an array leaves the former target's points under the new one.
end_history-select_target :
    (encode : Text → Text) (devices : List DeviceNode) (target : Text) (s : HistoryState)
    → (target === s.target) ≡ false
    → let asked = select_target encode devices target s in
      (asked.target ≡ target)
      × ((end_history thrown [] asked).history ≡ s.history)
      × ((end_history not_array [] asked).history ≡ s.history)
unfolding select_target start_interval fetch_history end_history take_history
end_history-select_target encode devices target s other = rw other (refl, refl, refl)
