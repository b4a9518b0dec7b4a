-- ===== src/Chat/Session/Laws.antt =====
-- What a conversation goes through (web/src/components/AIChatDrawer.tsx).
use mathlib.Core.List.{map-append}
use ophanim.Base.{
  min, ◌-◌, ◌≡◌, refl, sym, ap, ◌∙◌, ◌≢◌, false, ◌||◌, Option, none, some, List, [], ◌∷◌, ◌++◌, map,
  Text, trim, is_empty, or_text, or_default, take_last, take, drop, length, length-drop,
  take-append-drop, arith, Bool-cases, inl, inr,
}
use ophanim.Chat.Session.{
  Sender, user, assistant, ChatMessage, ChatState, StoredChat, throws, other, array, load_messages,
  messages_of, raw_text, opened_chat, clear_history, type_input, turn_of, ChatRequest, text_to_send,
  start_send, ChatAnswer, fails, json_reply, raw_reply, no_response, answer_text, end_send,
}

append-ne-nil {ℓ} : {A : Type ℓ} (xs : List A) (a : A) → xs ++ a ∷ [] ≢ []
append-ne-nil [] a e = cc
append-ne-nil (x ∷ xs) a e = cc

or_text-ne-nil : (t d : Text) → d ≢ [] → or_text t d ≢ []
or_text-ne-nil [] d h e = h e
or_text-ne-nil (c ∷ t) d h e = cc

no_response-ne-nil : no_response ≢ []
no_response-ne-nil e = cc

raw_text-ne-nil : (t : Text) (p : Option (Option Text)) → raw_text t p ≢ []
unfolding raw_text
raw_text-ne-nil t none = or_text-ne-nil t no_response no_response-ne-nil
raw_text-ne-nil t (some r) =
    or_text-ne-nil (or_text (or_default r []) t) no_response no_response-ne-nil

-- The answer that is shown is never empty, whatever the request comes to.
answer_text-ne-nil :
    (parse_reply : Text → Option (Option Text)) (a : ChatAnswer) → answer_text parse_reply a ≢ []
unfolding answer_text
answer_text-ne-nil parse_reply (fails t) e = cc
answer_text-ne-nil parse_reply (json_reply r) e =
    or_text-ne-nil (or_default r []) no_response no_response-ne-nil e
answer_text-ne-nil parse_reply (raw_reply t) e = raw_text-ne-nil t (parse_reply t) e

-- The message of the user, and the message that answers.
abbrev pub asked : Text → Text → ChatState → ChatMessage
asked now custom s = record { sender = user; text = text_to_send custom s; time = now }

abbrev pub answered : (Text → Option (Option Text)) → Text → ChatAnswer → ChatMessage
answered parse_reply now a = record {
  sender = assistant;
  text = answer_text parse_reply a;
  time = now;
}

length-map {ℓ κ} :
    {A : Type ℓ} {B : Type κ} (f : A → B) (xs : List A) → length (map f xs) ≡ length xs
length-map f [] = refl
length-map f (x ∷ xs) = rw (length-map f xs) refl

-- The request of a prompt that is not blank, sent while nothing is loading, carries it, and as its
-- history the last turns of the conversation, in order and without the prompt itself: twelve of
-- them, or all when there are fewer.
pub start_send-history :
    (now custom : Text) (s : ChatState)
    → s.loading ≡ false
    → is_empty (trim (text_to_send custom s)) ≡ false
    → (r : ChatRequest) × ((start_send now custom s).1 ≡ some r)
      × (r.message ≡ text_to_send custom s)
      × ((older : List (Sender × Text)) × (map turn_of s.messages ≡ older ++ r.history))
      × (length r.history ≡ min 12 (length s.messages))
unfolding start_send
start_send-history now custom s ready said =
    let before = length s.messages - 12 in
    (
      record { message = text_to_send custom s; history = map turn_of (take_last 12 s.messages) },
      rw (ready, said) refl,
      refl,
      (
        map turn_of (take before s.messages),
        ap (map turn_of) (sym (take-append-drop before s.messages))
            ∙ map-append turn_of (take before s.messages) (drop before s.messages),
      ),
      length-map turn_of (take_last 12 s.messages) ∙ omega (arith, length-drop before s.messages),
    )

-- The events of the drawer; an answer may come at any time, also after the history was cleared.
pub data ChatStep (welcome : ChatMessage) (s : ChatState) : ChatState → Type 0 where
  cleared : ChatStep welcome s (clear_history welcome s)
  typed : (t : Text) → ChatStep welcome s (type_input t s)
  sent : (now custom : Text) → ChatStep welcome s (start_send now custom s).0
  replied :
      (parse_reply : Text → Option (Option Text)) (now : Text) (a : ChatAnswer)
      → ChatStep welcome s (end_send parse_reply now a s)

pub data ChatReach (welcome : ChatMessage) (s : ChatState) : ChatState → Type 0 where
  begin : ChatReach welcome s s
  follow : {t u : ChatState} → ChatReach welcome s t → ChatStep welcome t u → ChatReach welcome s u

messages_of-ne-nil : (welcome : ChatMessage) (p : StoredChat) → messages_of welcome p ≢ []
unfolding messages_of
messages_of-ne-nil welcome throws e = cc
messages_of-ne-nil welcome other e = cc
messages_of-ne-nil welcome (array []) e = cc
messages_of-ne-nil welcome (array (m ∷ ms)) e = cc

load_messages-ne-nil :
    (welcome : ChatMessage) (parse : Text → StoredChat) (saved : Option Text)
    → load_messages welcome parse saved ≢ []
unfolding load_messages
load_messages-ne-nil welcome parse none e = cc
load_messages-ne-nil welcome parse (some []) e = cc
load_messages-ne-nil welcome parse (some (c ∷ t)) e = messages_of-ne-nil welcome (parse (c ∷ t)) e

ChatStep-ne-nil :
    {welcome : ChatMessage} {s t : ChatState}
    → ChatStep welcome s t
    → s.messages ≢ []
    → t.messages ≢ []
unfolding clear_history type_input end_send start_send
ChatStep-ne-nil cleared ne e = cc
ChatStep-ne-nil (typed t) ne e = ne e
ChatStep-ne-nil {s = s} (sent now custom) ne e =
    elim (Bool-cases (is_empty (trim (text_to_send custom s)) || s.loading)) [
      | inl stays ↦ ne (rw stays at e)
      | inr goes ↦ append-ne-nil s.messages (asked now custom s) (rw goes at e)
    ]
ChatStep-ne-nil {s = s} (replied parse_reply now a) ne e =
    append-ne-nil s.messages (answered parse_reply now a) e

-- Whatever was stored and whatever happens in the drawer, there is a message to show.
pub ChatReach-ne-nil :
    (welcome : ChatMessage) (parse : Text → StoredChat) (saved : Option Text) {t : ChatState}
    → ChatReach welcome (opened_chat welcome parse saved) t
    → t.messages ≢ []
ChatReach-ne-nil welcome parse saved begin =
    unfold opened_chat in load_messages-ne-nil welcome parse saved
ChatReach-ne-nil welcome parse saved (follow r step) =
    ChatStep-ne-nil step (ChatReach-ne-nil welcome parse saved r)
