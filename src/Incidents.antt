-- ===== src/Incidents.antt =====
-- The incidents: the lock of a card that acts, its buttons and its badges
-- (web/src/pages/IncidentsView.tsx).
pub mod Laws
use ophanim.Base.{
  Bool, true, false, Option, none, some, List, [], ◌∷◌, ◌++◌, Text, codes, ◌===◌, text_eq_instance,
  if◌then◌else◌, or_default, is_empty,
}
use ophanim.Types.{Incident, Severity, critical}

-- What a card does to its incident.
pub data Act : Type 0 where
  approve resolve : Act

-- The state of the view, with the actions that were started in it and whose callback has not
-- settled, and those that were started before the page was last left.
pub record IncidentsState : Type 0 where
  pub acting_id : Option Text
  pub running : List (Text × Act)
  pub left_behind : List (Text × Act)

unfoldable pub first_incidents : IncidentsState
first_incidents = record { acting_id = none; running = []; left_behind = [] }

-- The shell drops the view with its tab, and a return makes a new one: the actions go on, but the
-- `finally` of an old one reaches no view any more.
unfoldable pub return_to_page : IncidentsState → IncidentsState
return_to_page s = record {
  acting_id = none;
  running = [];
  left_behind = s.left_behind ++ s.running;
}

unfoldable pub end_left : List (Text × Act) → IncidentsState → IncidentsState
end_left rest s = record s { left_behind = rest }

-- `actingId === inc.id`
unfoldable pub is_locked : Text → Option Text → Bool
is_locked i none = false
is_locked i (some j) = j === i

-- A click on a button of the card: nothing happens while it is disabled; else `handleApprove` or
-- `handleResolve` up to its callback.
unfoldable pub start_act : Text → Act → IncidentsState → IncidentsState
unfolding is_locked
start_act i a s =
    if is_locked i s.acting_id
    then s
    else record s { acting_id = some i; running = s.running ++ (i, a) ∷ [] }

-- The `finally` of both handlers in the view that started them, after success and after an error;
-- `rest` is still running.
unfoldable pub end_act : List (Text × Act) → IncidentsState → IncidentsState
end_act rest s = record s { acting_id = none; running = rest }

unfoldable pub is_critical : Severity → Bool
is_critical critical = true
is_critical _ = false

pub data CardTint : Type 0 where
  crimson_card amber_card : CardTint

unfoldable pub card_tint : Incident → CardTint
unfolding is_critical
card_tint inc = if is_critical inc.severity then crimson_card else amber_card

-- The source that the button of the logs opens; without one there is no button.
unfoldable pub logs_source : List Text → Option Text
logs_source [] = none
logs_source (t ∷ ts) = if is_empty t then none else some t

-- The buttons of a card, from the left.
pub data CardButton : Type 0 where
  logs_button : Text → CardButton
  resolve_button : Bool → CardButton
  approve_button : Bool → Text → CardButton

abbrev pub logs_part : Option Text → List CardButton
logs_part none = []
logs_part (some t) = logs_button t ∷ []

abbrev pub approve_label : Bool → Text
approve_label true = codes "EXECUTING..."
approve_label false = 10022 ∷ codes " APPROVE 1-CLICK FIX"

unfoldable pub approve_part : {A : Type 0} → Option A → Bool → List CardButton
approve_part none locked = []
approve_part (some a) locked = approve_button locked (approve_label locked) ∷ []

unfoldable pub card_buttons : IncidentsState → Incident → List CardButton
unfolding logs_source is_locked approve_part
card_buttons s inc =
    logs_part (logs_source inc.impacted_targets)
    ++ (resolve_button (is_locked inc.id s.acting_id)
        ∷ approve_part inc.proposed_action (is_locked inc.id s.acting_id))
