-- ===== src/App/Actions/Laws.antt =====
-- The refreshes of the shell end, and no call goes without one (web/src/App.tsx).
use ophanim.Base.{
  ℕ, suc, ◌+◌, ◌≡◌, refl, ◌∙◌, ◌≢◌, ◌⊎◌, inl, inr, Bool, true, false, Option, none, some, List, [],
  ◌∷◌, ◌++◌, arith, length, drop, length-drop, nil_of_length,
}
use ophanim.App.Data.{
  DataState, first_data, NodeMetrics, Answer, throws, refused, sends, Answers, fetch_host_metrics,
  end_refresh, Message, metrics_updated, containers_updated, incident_created, incident_resolved,
  ignored, on_message,
}
use ophanim.App.Actions.{
  ServerCall, ShellState, start_fetch, end_fetch, first_shell, start_call, end_call, take_message,
  take_metrics,
}

-- The events of the shell. The open calls and the open refreshes are answered in any order.
pub data ShellStep (s : ShellState) : ShellState → Type 0 where
  polled : ShellStep s (start_fetch s)
  fetched : (n : ℕ) (a : Option Answers) → s.refreshes ≡ suc n → ShellStep s (end_fetch a s)
  measured : (a : Answer NodeMetrics) → ShellStep s (take_metrics a s)
  pushed : (m : Message) → ShellStep s (take_message m s)
  called : (c : ServerCall) → ShellStep s (start_call c s)
  answered :
      (is_answered : Bool) (earlier later : List ServerCall) (c : ServerCall)
      → s.calls ≡ earlier ++ c ∷ later
      → ShellStep s (end_call is_answered (earlier ++ later) s)

pub data ShellReach (s : ShellState) : ShellState → Type 0 where
  start : ShellReach s s
  after : {t u : ShellState} → ShellReach s t → ShellStep t u → ShellReach s u

-- The flag is set for an open refresh.
abbrev IsFlagged : ShellState → Type 0
IsFlagged s = (s.data_state.is_refreshing ≡ false) ⊎ (s.refreshes ≢ 0)

start_fetch-IsFlagged : (s : ShellState) → IsFlagged (start_fetch s)
unfolding start_fetch
start_fetch-IsFlagged s = inr (λ e. omega (arith, e))

end_refresh-quiet : (a : Option Answers) (d : DataState) → (end_refresh a d).is_refreshing ≡ false
unfolding end_refresh
end_refresh-quiet none d = refl
end_refresh-quiet (some a) d = refl

metrics-is_refreshing :
    (a : Answer NodeMetrics) (d : DataState)
    → (fetch_host_metrics a d).is_refreshing ≡ d.is_refreshing
unfolding fetch_host_metrics
metrics-is_refreshing throws d = refl
metrics-is_refreshing refused d = refl
metrics-is_refreshing (sends none) d = refl
metrics-is_refreshing (sends (some sample)) d = refl

take_message-IsFlagged : (m : Message) (s : ShellState) → IsFlagged s → IsFlagged (take_message m s)
unfolding take_message on_message
take_message-IsFlagged (metrics_updated m) s h = h
take_message-IsFlagged (containers_updated cs) s h = h
take_message-IsFlagged incident_created s h = inr (λ e. omega (arith, e))
take_message-IsFlagged incident_resolved s h = inr (λ e. omega (arith, e))
take_message-IsFlagged ignored s h = h

ShellStep-IsFlagged : {s t : ShellState} → ShellStep s t → IsFlagged s → IsFlagged t
ShellStep-IsFlagged {s} polled h = start_fetch-IsFlagged s
ShellStep-IsFlagged {s} (fetched n a e) h =
    unfold end_fetch in inl (end_refresh-quiet a s.data_state)
ShellStep-IsFlagged {s} (measured a) (inl quiet) =
    unfold take_metrics in inl (metrics-is_refreshing a s.data_state ∙ quiet)
ShellStep-IsFlagged {s} (measured a) (inr busy) = unfold take_metrics in inr busy
ShellStep-IsFlagged {s} (pushed m) h = take_message-IsFlagged m s h
ShellStep-IsFlagged {s} (called c) h = unfold start_call in h
ShellStep-IsFlagged {s} (answered true earlier later c e) h =
    unfold end_call in start_fetch-IsFlagged (record s { calls = earlier ++ later })
ShellStep-IsFlagged {s} (answered false earlier later c e) h = unfold end_call in h

ShellReach-IsFlagged : {s : ShellState} → ShellReach first_shell s → IsFlagged s
ShellReach-IsFlagged start =
    unfold first_shell in
    start_fetch-IsFlagged (record { data_state = first_data; calls = []; refreshes = 0 })
ShellReach-IsFlagged (after r step) = ShellStep-IsFlagged step (ShellReach-IsFlagged r)

-- What the open calls come to, and then what the open refreshes come to.
abbrev pub answer_calls : List Bool → ShellState → ShellState
answer_calls [] s = s
answer_calls (b ∷ outcomes) s = answer_calls outcomes (end_call b (drop 1 s.calls) s)

abbrev pub answer_fetches : List (Option Answers) → ShellState → ShellState
answer_fetches [] s = s
answer_fetches (a ∷ answers) s = answer_fetches answers (end_fetch a s)

-- The number of the calls that are answered.
abbrev pub reached : List Bool → ℕ
reached [] = 0
reached (true ∷ outcomes) = suc (reached outcomes)
reached (false ∷ outcomes) = reached outcomes

answer_calls-calls :
    (outcomes : List Bool) (s : ShellState)
    → length outcomes ≡ length s.calls
    → ((answer_calls outcomes s).calls ≡ [])
      × ((answer_calls outcomes s).refreshes ≡ s.refreshes + reached outcomes)
unfolding end_call start_fetch
answer_calls-calls [] s e = (nil_of_length s.calls e, omega arith)
answer_calls-calls (true ∷ outcomes) s e =
    let (calls, refreshes) =
      answer_calls-calls outcomes (end_call true (drop 1 s.calls) s)
        (omega (arith, length-drop 1 s.calls)) in
    (calls, omega (arith, refreshes))
answer_calls-calls (false ∷ outcomes) s e =
    let (calls, refreshes) =
      answer_calls-calls outcomes (end_call false (drop 1 s.calls) s)
        (omega (arith, length-drop 1 s.calls)) in
    (calls, omega (arith, refreshes))

answer_calls-IsFlagged :
    (outcomes : List Bool) (s : ShellState) → IsFlagged s → IsFlagged (answer_calls outcomes s)
unfolding end_call
answer_calls-IsFlagged [] s h = h
answer_calls-IsFlagged (true ∷ outcomes) s h =
    answer_calls-IsFlagged outcomes (end_call true (drop 1 s.calls) s)
      (start_fetch-IsFlagged (record s { calls = drop 1 s.calls }))
answer_calls-IsFlagged (false ∷ outcomes) s h =
    answer_calls-IsFlagged outcomes (end_call false (drop 1 s.calls) s) h

answer_fetches-quiet :
    (answers : List (Option Answers)) (s : ShellState)
    → IsFlagged s
    → length answers ≡ s.refreshes
    → ((answer_fetches answers s).data_state.is_refreshing ≡ false)
      × ((answer_fetches answers s).refreshes ≡ 0)
      × ((answer_fetches answers s).calls ≡ s.calls)
unfolding end_fetch
answer_fetches-quiet [] s (inl quiet) e = (quiet, omega (arith, e), refl)
answer_fetches-quiet [] s (inr busy) e = absurd (busy (omega (arith, e)))
answer_fetches-quiet (a ∷ answers) s h e =
    answer_fetches-quiet answers (end_fetch a s) (inl (end_refresh-quiet a s.data_state))
      (omega (arith, e))

-- Whatever is polled, pushed, clicked and answered after a page load: answering an open call adds a
-- refresh exactly when the call reached the server, and once each open call and then each open
-- refresh has come to an end, by any status, by answers or by an exception, the refresh flag is
-- cleared and no call and no refresh is open.
pub ShellReach-answer_all :
    {s : ShellState} (outcomes : List Bool) (answers : List (Option Answers))
    → ShellReach first_shell s
    → length outcomes ≡ length s.calls
    → length answers ≡ s.refreshes + reached outcomes
    → ((answer_calls outcomes s).refreshes ≡ s.refreshes + reached outcomes)
      × (let t = answer_fetches answers (answer_calls outcomes s) in
          (t.data_state.is_refreshing ≡ false) × (t.refreshes ≡ 0) × (t.calls ≡ []))
ShellReach-answer_all {s} outcomes answers r e f =
    let (calls, refreshes) = answer_calls-calls outcomes s e in
    let (quiet, closed, same) =
      answer_fetches-quiet answers (answer_calls outcomes s)
        (answer_calls-IsFlagged outcomes s (ShellReach-IsFlagged r))
        (omega (arith, refreshes, f)) in
    (refreshes, (quiet, closed, same ∙ calls))
