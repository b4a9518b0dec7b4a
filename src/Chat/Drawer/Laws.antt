-- ===== src/Chat/Drawer/Laws.antt =====
-- What a reload of the page finds of the drawer (web/src/components/AIChatDrawer.tsx).
use ophanim.Base.{
  ℕ, ℤ, pos, negsuc, ltb_ℤ, ap, ◌≡◌, refl, ◌≢◌, Bool, true, false, Option, none, some, List, [],
  ◌∷◌, Text, codes, arith, if◌then◌else◌, is_some, is_empty, trim, ◌||◌, inl, inr, Bool-cases, ◌≤◌,
  ◌≤ℤ◌,
}
use ophanim.Chat.Session.{
  ChatMessage, StoredChat, array, ChatState, messages_of, load_messages, opened_chat, start_send,
  text_to_send,
}
use ophanim.Chat.Session.Laws.{ChatReach, ChatReach-ne-nil}
use ophanim.Chat.Width.{Width, min_width, max_ℤ, load_width}
use ophanim.Chat.Width.Laws.{
  IsWide, WidthReach, from, step, moved, widened, narrowed, WidthReach-IsWide,
}
use ophanim.Chat.Drawer.{
  DragState, first_drag, mouse_down, drag_move, mouse_up, press_wide, press_narrow, width_text,
  stored_width, stored_chat, submit, can_submit,
}

-- The events at the edge of the drawer, in windows that leave room for it.
pub data DragStep (s : DragState) : DragState → Type 0 where
  pressed : DragStep s (mouse_down s)
  dragged : (inner_width : ℕ) (client_x : ℤ) → DragStep s (drag_move inner_width client_x s)
  released : DragStep s (mouse_up s)
  wide_pressed : (inner_width : ℕ) → 640 ≤ inner_width → DragStep s (press_wide inner_width s)
  narrow_pressed : DragStep s (press_narrow s)

pub data DragReach (s : DragState) : DragState → Type 0 where
  begin : DragReach s s
  follow : {t u : DragState} → DragReach s t → DragStep t u → DragReach s u

-- The styles of the page say whether the edge is dragged.
pub record IsStyled (s : DragState) : Type 0 where
  pub selects : s.user_select ≡ (if s.is_dragging then codes "none" else [])
  pub points : s.cursor ≡ (if s.is_dragging then codes "col-resize" else [])

if-IsStyled : (b : Bool) (s t : DragState) → IsStyled s → IsStyled t → IsStyled (if b then s else t)
if-IsStyled true s t h k = h
if-IsStyled false s t h k = k

DragStep-IsStyled : {s t : DragState} → DragStep s t → IsStyled s → IsStyled t
DragStep-IsStyled pressed h = unfold mouse_down in record { selects = refl; points = refl }
DragStep-IsStyled (dragged inner_width client_x) h =
    unfold drag_move in record { selects = h.selects; points = h.points }
DragStep-IsStyled {s} released h =
    unfold mouse_up in
    if-IsStyled s.is_dragging (record s { is_dragging = false; user_select = []; cursor = [] }) s
      (record { selects = refl; points = refl }) h
DragStep-IsStyled (wide_pressed inner_width wide) h =
    unfold press_wide in record { selects = h.selects; points = h.points }
DragStep-IsStyled narrow_pressed h =
    unfold press_narrow in record { selects = h.selects; points = h.points }

mouse_up-width : (s : DragState) → (mouse_up s).width ≡ s.width
unfolding mouse_up
mouse_up-width s = ground arith

DragStep-width :
    {w : Width} {s t : DragState} → DragStep s t → WidthReach w s.width → WidthReach w t.width
DragStep-width pressed r = unfold mouse_down in r
DragStep-width {s = s} (dragged inner_width client_x) r =
    unfold drag_move in step r (moved s.is_dragging inner_width client_x)
DragStep-width {s = s} released r = rw (mouse_up-width s) r
DragStep-width (wide_pressed inner_width wide) r =
    unfold press_wide in step r (widened inner_width wide)
DragStep-width narrow_pressed r = unfold press_narrow in step r narrowed

DragReach-IsStyled :
    {w : Width} {s : DragState} → DragReach (first_drag w) s → IsStyled s × WidthReach w s.width
unfolding first_drag
DragReach-IsStyled begin = (record { selects = refl; points = refl }, from)
DragReach-IsStyled (follow r e) =
    let (styled, reached) = DragReach-IsStyled r in
    (DragStep-IsStyled e styled, DragStep-width e reached)

max_ℤ-least : (w : ℤ) → min_width ≤ℤ w → max_ℤ min_width w ≡ w
unfolding max_ℤ
max_ℤ-least (pos n) h = elim (Bool-cases (ltb_ℤ min_width (pos n))) [
  | inl e ↦ rw e refl
  | inr e ↦ rw e (ap pos (ground arith))
]
max_ℤ-least (negsuc n) h = absurd (ground arith)

load_width-wide :
    (parse_int : Text → Width) (t : Text) (w : Width)
    → IsWide w
    → t ≢ []
    → parse_int t ≡ w
    → load_width parse_int (some t) ≡ w
unfolding load_width
load_width-wide parse_int [] w wide full e = absurd (full refl)
load_width-wide parse_int (c ∷ t) none wide full e = rw (e, load_width) refl
load_width-wide parse_int (c ∷ t) (some w) wide full e =
    rw (e, load_width) (ap some (max_ℤ-least w wide))

-- A drag ends as the page was before it, and a reload finds the width again. From whatever width
-- was stored, after any presses, moves and releases of the edge and its buttons, in windows of at
-- least 640 pixels for the button that widens, the styles of the page are set exactly while the
-- edge is dragged; and if `parseInt` reads the stored text of the width back as that width, a
-- reload opens the drawer with it.
pub load_width-stored_width :
    (parse_int : Text → Width) (to_string : ℤ → Text) (saved : Option Text) {s : DragState}
    → DragReach (first_drag (load_width parse_int saved)) s
    → width_text to_string s.width ≢ []
    → parse_int (width_text to_string s.width) ≡ s.width
    → IsStyled s × (load_width parse_int (stored_width to_string s) ≡ s.width)
unfolding stored_width
load_width-stored_width parse_int to_string saved {s} r full e =
    let (styled, reached) = DragReach-IsStyled r in
    (
      styled,
      load_width-wide parse_int (width_text to_string s.width) s.width
          (WidthReach-IsWide parse_int saved reached) full e,
    )

messages_of-array :
    (welcome : ChatMessage) (ms : List ChatMessage) → ms ≢ [] → messages_of welcome (array ms) ≡ ms
unfolding messages_of
messages_of-array welcome [] h = absurd (h refl)
messages_of-array welcome (m ∷ ms) h = refl

load_messages-text :
    (welcome : ChatMessage) (parse : Text → StoredChat) (t : Text) (ms : List ChatMessage)
    → t ≢ []
    → parse t ≡ array ms
    → ms ≢ []
    → load_messages welcome parse (some t) ≡ ms
unfolding load_messages
load_messages-text welcome parse [] ms full e h = absurd (full refl)
load_messages-text welcome parse (c ∷ t) ms full e h = rw e (messages_of-array welcome ms h)

-- A reload keeps the conversation. Whatever was stored and whatever was typed, sent, answered and
-- cleared, if `JSON.parse` reads the stored text back as the messages, the drawer opens after a
-- reload with the messages it had, whatever the welcome message then is, and with nothing typed and
-- nothing loading.
pub opened_chat-stored_chat :
    (welcome later : ChatMessage) (parse : Text → StoredChat) (stringify : List ChatMessage → Text)
    (saved : Option Text) {s : ChatState}
    → ChatReach welcome (opened_chat welcome parse saved) s
    → stringify s.messages ≢ []
    → parse (stringify s.messages) ≡ array s.messages
    → opened_chat later parse (stored_chat stringify s) ≡ record s { input = []; loading = false }
unfolding opened_chat stored_chat
opened_chat-stored_chat welcome later parse stringify saved {s} r full inverts =
    rw
      (load_messages-text later parse (stringify s.messages) s.messages full inverts
        (ChatReach-ne-nil welcome parse saved r))
      refl

-- The button that sends is enabled exactly when the form then sends something.
submit-can_submit : (now : Text) (s : ChatState) → is_some (submit now s).1 ≡ can_submit s
unfolding submit can_submit start_send text_to_send
submit-can_submit now s = elim (Bool-cases (is_empty (trim s.input) || s.loading)) [
  | inl e ↦ rw e (ground (arith, e))
  | inr e ↦ rw e (ground (arith, e))
]
