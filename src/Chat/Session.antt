-- ===== src/Chat/Session.antt =====
-- The conversation with the assistant: loading, sending, the answer and clearing
-- (web/src/components/AIChatDrawer.tsx). Sending is two steps, one in front of the request and one
-- behind it. `now` is the time of day as it is shown.
pub mod Laws
pub mod Talk
use ophanim.Base.{
  ℕ, Bool, true, false, ◌||◌, Option, none, some, List, [], ◌∷◌, ◌++◌, map, Text, codes, trim,
  is_empty, or_text, or_default, if◌then◌else◌, take_last,
}

pub data Sender : Type 0 where
  user assistant : Sender

pub record ChatMessage : Type 0 where
  pub sender : Sender
  pub text : Text
  pub time : Text

pub record ChatState : Type 0 where
  pub messages : List ChatMessage
  pub input : Text
  pub loading : Bool

-- What the stored conversation parses to: an exception, a value that is no array, or messages.
pub data StoredChat : Type 0 where
  throws other : StoredChat
  array : List ChatMessage → StoredChat

-- The messages of a stored conversation, or the welcome message.
unfoldable pub messages_of : ChatMessage → StoredChat → List ChatMessage
messages_of welcome (array (m ∷ ms)) = m ∷ ms
messages_of welcome _ = welcome ∷ []

-- The initialiser of `messages`; the welcome message is a parameter, since it has its time.
unfoldable pub load_messages : ChatMessage → (Text → StoredChat) → Option Text → List ChatMessage
unfolding messages_of
load_messages welcome parse none = welcome ∷ []
load_messages welcome parse (some []) = welcome ∷ []
load_messages welcome parse (some (c ∷ saved)) = messages_of welcome (parse (c ∷ saved))

unfoldable pub opened_chat : ChatMessage → (Text → StoredChat) → Option Text → ChatState
unfolding load_messages
opened_chat welcome parse saved = record {
  messages = load_messages welcome parse saved;
  input = [];
  loading = false;
}

-- `handleClearHistory`
unfoldable pub clear_history : ChatMessage → ChatState → ChatState
clear_history welcome s = record s { messages = welcome ∷ [] }

unfoldable pub type_input : Text → ChatState → ChatState
type_input t s = record s { input = t }

-- One turn of the history that is sent.
unfoldable pub turn_of : ChatMessage → Sender × Text
turn_of m = (m.sender, m.text)

pub record ChatRequest : Type 0 where
  pub message : Text
  pub history : List (Sender × Text)

-- `customPrompt || input`; the prompt is empty when there is none.
unfoldable pub text_to_send : Text → ChatState → Text
text_to_send custom s = or_text custom s.input

-- `handleSend` up to the request.
unfoldable pub start_send : Text → Text → ChatState → ChatState × Option ChatRequest
unfolding text_to_send turn_of
start_send now custom s =
    if is_empty (trim (text_to_send custom s)) || s.loading then (s, none) else (
      record s {
        messages =
            s.messages ++ record { sender = user; text = text_to_send custom s; time = now } ∷ [];
        input = if is_empty custom then [] else s.input;
        loading = true;
      },
      some (record {
        message = text_to_send custom s;
        history = map turn_of (take_last 12 s.messages);
      }),
    )

-- What the request comes to: an exception or an error status, with its text; a reply in JSON, if
-- there is one; or a text that may be JSON.
pub data ChatAnswer : Type 0 where
  fails : Text → ChatAnswer
  json_reply : Option Text → ChatAnswer
  raw_reply : Text → ChatAnswer

abbrev pub no_response : Text
no_response = codes "No response from assistant."

-- The text of a reply that is no JSON by its type; `none` when it is not by its content.
unfoldable pub raw_text : Text → Option (Option Text) → Text
raw_text t none = or_text t no_response
raw_text t (some r) = or_text (or_text (or_default r []) t) no_response

-- The text of the answer. `parse_reply` is `JSON.parse(t).reply`: `none` when that throws.
unfoldable pub answer_text : (Text → Option (Option Text)) → ChatAnswer → Text
unfolding raw_text
answer_text parse_reply (fails e) = codes "Error connecting to AI service: " ++ e
answer_text parse_reply (json_reply r) = or_text (or_default r []) no_response
answer_text parse_reply (raw_reply t) = raw_text t (parse_reply t)

-- `handleSend` behind the request.
unfoldable pub end_send : (Text → Option (Option Text)) → Text → ChatAnswer → ChatState → ChatState
unfolding answer_text
end_send parse_reply now a s = record s {
  messages =
      s.messages
      ++ record { sender = assistant; text = answer_text parse_reply a; time = now } ∷ [];
  loading = false;
}
