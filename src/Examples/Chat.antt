-- ===== src/Examples/Chat.antt =====
-- The assistant's drawer, web/src/components/AIChatDrawer.tsx, at concrete data.
use ophanim.Base.{
  min, ◌≡◌, refl, ◌≢◌, ◌+◌, false, none, some, List, [], ◌∷◌, ◌++◌, map, Text, codes, trim,
  is_empty, length, drop_while, is_space, pos, ◌*◌, ◌-ℤ◌,
}
use ophanim.Chat.Session.{
  Sender, assistant, ChatMessage, ChatState, turn_of, ChatRequest, text_to_send, start_send,
  StoredChat, array, throws, messages_of, load_messages, opened_chat, type_input,
}
use ophanim.Chat.Session.Laws.{begin, follow, typed, start_send-history}
use ophanim.Chat.Session.Talk.{
  requests, opened, after_typing, after_sending, IsTalking, TalkReach-IsTalking,
}
use ophanim.Chat.Width.{Width, load_width, mouse_move, max_ℤ}
use ophanim.Chat.Drawer.{first_drag, mouse_down, drag_move, stored_width, width_text, stored_chat}
use ophanim.Chat.Drawer.Laws.{
  IsStyled, begin, follow, pressed, dragged, load_width-stored_width, opened_chat-stored_chat,
}

abbrev welcome : ChatMessage
welcome = record { sender = assistant; text = codes "Hello!"; time = codes "09:00" }

abbrev chat : ChatState
chat = record { messages = welcome ∷ []; input = codes "status?"; loading = false }

said : is_empty (trim (text_to_send [] chat)) ≡ false
unfolding text_to_send trim drop_while is_space
said = refl

abbrev fresh : ChatState
fresh = type_input (codes "status?") (opened_chat welcome (λ t. throws) none)

abbrev prompted : ChatState
prompted = (start_send (codes "09:01") (codes "status?") fresh).0

IsTalking_example :
    IsTalking
      (0
        + requests (start_send (codes "09:01") (codes "status?") fresh).1
        + requests (start_send (codes "09:02") (codes "again") prompted).1)
      (start_send (codes "09:02") (codes "again") prompted).0
IsTalking_example =
    TalkReach-IsTalking welcome (λ t. throws) none
      (after_sending (codes "09:02") (codes "again")
        (after_sending (codes "09:01") (codes "status?") (after_typing (codes "status?") opened)))

start_send_example :
    (r : ChatRequest) × ((start_send (codes "09:01") [] chat).1 ≡ some r)
    × (r.message ≡ text_to_send [] chat)
    × ((older : List (Sender × Text)) × (map turn_of chat.messages ≡ older ++ r.history))
    × (length r.history ≡ min 12 (length chat.messages))
start_send_example = start_send-history (codes "09:01") [] chat refl said

abbrev by_size : Text → Width
by_size t = some (pos (100 * length t))

size_full : codes "size" ≢ []
size_full e = cc

load_width_example :
    let s =
      drag_move 1000
        (pos 600)
        (mouse_down (first_drag (load_width by_size (some (codes "500px"))))) in
    IsStyled s × (load_width by_size (stored_width (λ w. codes "size") s) ≡ s.width)
unfolding drag_move mouse_down mouse_move max_ℤ first_drag load_width width_text ◌-ℤ◌
load_width_example =
    load_width-stored_width by_size (λ w. codes "size") (some (codes "500px"))
      (follow (follow begin pressed) (dragged 1000 (pos 600))) size_full refl

abbrev parsed : Text → StoredChat
parsed t = array chat.messages

-- The drawer with a stored conversation and a word typed.
abbrev reopened : ChatState
reopened = type_input (codes "hi") (opened_chat welcome parsed (some (codes "stored")))

opened_chat_example :
    opened_chat welcome parsed (stored_chat (λ ms. codes "size") reopened)
    ≡ record reopened { input = []; loading = false }
unfolding type_input opened_chat load_messages messages_of
opened_chat_example =
    opened_chat-stored_chat welcome welcome parsed (λ ms. codes "size") (some (codes "stored"))
      (follow begin (typed (codes "hi"))) size_full refl
