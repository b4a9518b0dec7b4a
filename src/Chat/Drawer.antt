-- ===== src/Chat/Drawer.antt =====
-- The drawer around the conversation: the drag of its edge, what is stored, the prompts that are
-- offered and the rows of the feed (web/src/components/AIChatDrawer.tsx).
pub mod Laws
use ophanim.Base.{
  ℕ, ℤ, Bool, true, false, not, ◌&&◌, Option, none, some, List, [], ◌∷◌, ◌++◌, map, Text, codes,
  trim, is_empty, if◌then◌else◌,
}
use ophanim.Chat.Session.{Sender, user, assistant, ChatMessage, ChatState, ChatRequest, start_send}
use ophanim.Chat.Width.{Width, mouse_move, widen, narrow}

-- The width and the drag, with the two styles of the page that the drag sets.
pub record DragState : Type 0 where
  pub width : Width
  pub is_dragging : Bool
  pub user_select : Text
  pub cursor : Text

unfoldable pub first_drag : Width → DragState
first_drag w = record { width = w; is_dragging = false; user_select = []; cursor = [] }

-- `handleMouseDown`
unfoldable pub mouse_down : DragState → DragState
mouse_down s = record s {
  is_dragging = true;
  user_select = codes "none";
  cursor = codes "col-resize";
}

-- `handleMouseMove`, whether its listener is there or not: it asks for the drag itself.
unfoldable pub drag_move : ℕ → ℤ → DragState → DragState
drag_move inner_width client_x s = record s {
  width = mouse_move s.is_dragging inner_width client_x s.width;
}

-- `handleMouseUp`
unfoldable pub mouse_up : DragState → DragState
mouse_up s =
    if s.is_dragging then record s { is_dragging = false; user_select = []; cursor = [] } else s

unfoldable pub press_wide : ℕ → DragState → DragState
press_wide inner_width s = record s { width = widen inner_width s.width }

unfoldable pub press_narrow : DragState → DragState
press_narrow s = record s { width = narrow s.width }

-- `width.toString()`; `to_string` is that of a whole number.
unfoldable pub width_text : (ℤ → Text) → Width → Text
width_text to_string none = codes "NaN"
width_text to_string (some w) = to_string w

-- What the two effects store; `stringify` is `JSON.stringify`.
unfoldable pub stored_width : (ℤ → Text) → DragState → Option Text
unfolding width_text
stored_width to_string s = some (width_text to_string s.width)

unfoldable pub stored_chat : (List ChatMessage → Text) → ChatState → Option Text
stored_chat stringify s = some (stringify s.messages)

-- The prompts that are offered above the feed.
pub data Prompt : Type 0 where
  triage top_consumers network : Prompt

unfoldable pub prompt_text : Prompt → Text
prompt_text triage =
    codes
      "Triage the entire cluster and report any anomalies, degraded containers, or resource constraints."
prompt_text top_consumers = codes "Which containers are using the highest CPU and RAM right now?"
prompt_text network =
    codes "Summarize the current network bus throughput and identify any heavy network traffic."

unfoldable pub press_prompt : Text → Prompt → ChatState → ChatState × Option ChatRequest
unfolding prompt_text
press_prompt now p s = start_send now (prompt_text p) s

-- The button that sends is enabled.
unfoldable pub can_submit : ChatState → Bool
can_submit s = not (is_empty (trim s.input)) && not s.loading

-- The form is submitted, by the button or by the Enter key.
unfoldable pub submit : Text → ChatState → ChatState × Option ChatRequest
submit now s = start_send now [] s

-- A row of the feed: the user's text as it is, the assistant's through the renderer, or the mark of
-- a request under way.
pub data FeedRow : Type 0 where
  plain_row markdown_row : (text time : Text) → FeedRow
  analyzing_row : FeedRow

unfoldable pub feed_row : ChatMessage → FeedRow
feed_row m = elim m.sender [
  | user ↦ plain_row m.text m.time
  | assistant ↦ markdown_row m.text m.time
]

unfoldable pub feed : ChatState → List FeedRow
unfolding feed_row
feed s = map feed_row s.messages ++ (if s.loading then analyzing_row ∷ [] else [])
