-- ===== src/Chat/Session/Talk.antt =====
-- How many requests of a conversation are under way (web/src/components/AIChatDrawer.tsx).
use ophanim.Base.{
  ℕ, suc, ◌+◌, ◌≡◌, refl, ◌⊎◌, inl, inr, true, false, Option, none, some, Text, arith, Bool-cases,
  trim, is_empty,
}
use ophanim.Chat.Session.{
  ChatMessage, ChatState, ChatRequest, ChatAnswer, StoredChat, opened_chat, clear_history,
  type_input, text_to_send, start_send, end_send,
}

-- The number of requests that a handler sends.
abbrev pub requests : Option ChatRequest → ℕ
requests none = 0
requests (some r) = 1

-- What is reached with a number of requests under way.
pub data TalkReach (welcome : ChatMessage) (s : ChatState) : ℕ → ChatState → Type 0 where
  opened : TalkReach welcome s 0 s
  after_clear :
      {n : ℕ} {t : ChatState}
      → TalkReach welcome s n t
      → TalkReach welcome s n (clear_history welcome t)
  after_typing :
      {n : ℕ} {t : ChatState} (input : Text)
      → TalkReach welcome s n t
      → TalkReach welcome s n (type_input input t)
  after_sending :
      {n : ℕ} {t : ChatState} (now custom : Text)
      → TalkReach welcome s n t
      → TalkReach welcome s (n + requests (start_send now custom t).1) (start_send now custom t).0
  after_reply :
      {n : ℕ} {t : ChatState} (parse_reply : Text → Option (Option Text)) (now : Text)
      (a : ChatAnswer)
      → TalkReach welcome s (suc n) t
      → TalkReach welcome s n (end_send parse_reply now a t)

-- Nothing loads and no request is under way, or one is.
abbrev pub IsTalking : ℕ → ChatState → Type 0
IsTalking n t = ((n ≡ 0) × (t.loading ≡ false)) ⊎ ((n ≡ 1) × (t.loading ≡ true))

start_send-IsTalking :
    (now custom : Text) (n : ℕ) (t : ChatState)
    → IsTalking n t
    → IsTalking (n + requests (start_send now custom t).1) (start_send now custom t).0
unfolding start_send
start_send-IsTalking now custom n t (inl (none_open, quiet)) =
    elim (Bool-cases (is_empty (trim (text_to_send custom t)))) [
      | inl blank ↦ rw (blank, none_open) (inl (refl, quiet))
      | inr said ↦ rw (said, quiet, none_open) (inr (refl, refl))
    ]
start_send-IsTalking now custom n t (inr (one_open, busy)) =
    elim (Bool-cases (is_empty (trim (text_to_send custom t)))) [
      | inl blank ↦ rw (blank, busy, one_open) (inr (refl, refl))
      | inr said ↦ rw (said, busy, one_open) (inr (refl, refl))
    ]

end_send-IsTalking :
    (parse_reply : Text → Option (Option Text)) (now : Text) (a : ChatAnswer) (n : ℕ)
    (t : ChatState)
    → IsTalking (suc n) t
    → IsTalking n (end_send parse_reply now a t)
unfolding end_send
end_send-IsTalking parse_reply now a n t (inl (e, quiet)) = absurd (omega (arith, e))
end_send-IsTalking parse_reply now a n t (inr (e, busy)) = inl (omega (arith, e), refl)

clear_history-IsTalking :
    (welcome : ChatMessage) (n : ℕ) (t : ChatState)
    → IsTalking n t
    → IsTalking n (clear_history welcome t)
unfolding clear_history
clear_history-IsTalking welcome n t h = h

type_input-IsTalking :
    (input : Text) (n : ℕ) (t : ChatState) → IsTalking n t → IsTalking n (type_input input t)
unfolding type_input
type_input-IsTalking input n t h = h

-- Whatever was stored and whatever is typed, sent, answered and cleared, in any order, at most one
-- request is under way, and the drawer shows that it loads exactly while one is: a second prompt
-- waits for the first one's answer, and any answer, an error too, frees the drawer again.
pub TalkReach-IsTalking :
    (welcome : ChatMessage) (parse : Text → StoredChat) (saved : Option Text) {n : ℕ}
    {t : ChatState}
    → TalkReach welcome (opened_chat welcome parse saved) n t
    → IsTalking n t
TalkReach-IsTalking welcome parse saved opened = unfold opened_chat in inl (refl, refl)
TalkReach-IsTalking welcome parse saved (after_clear r) =
    clear_history-IsTalking _ _ _ (TalkReach-IsTalking welcome parse saved r)
TalkReach-IsTalking welcome parse saved (after_typing input r) =
    type_input-IsTalking _ _ _ (TalkReach-IsTalking welcome parse saved r)
TalkReach-IsTalking welcome parse saved (after_sending now custom r) =
    start_send-IsTalking now custom _ _ (TalkReach-IsTalking welcome parse saved r)
TalkReach-IsTalking welcome parse saved (after_reply parse_reply now a r) =
    end_send-IsTalking parse_reply now a _ _ (TalkReach-IsTalking welcome parse saved r)
