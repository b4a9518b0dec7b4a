-- ===== src/App/Actions.antt =====
-- The handlers of the shell that change data on the server and then fetch all data again, beside
-- the polling and the pushed messages (web/src/App.tsx). The calls and the refreshes that are under
-- way are counted in the state.
pub mod Laws
use ophanim.Base.{
  ℕ, ◌+◌, ◌-◌, Bool, true, false, Option, none, some, List, [], ◌∷◌, ◌++◌, Text, codes,
  if◌then◌else◌,
}
use ophanim.App.Data.{
  DataState, first_data, NodeMetrics, Answer, Answers, fetch_host_metrics, start_refresh,
  end_refresh, Message, on_message,
}

pub data ServerCall : Type 0 where
  approve_fix resolve_incident delete_device : Text → ServerCall
  update_device : (id name ip : Text) (token : Option Text) → ServerCall

-- What is sent. The body has the fields that `JSON.stringify` writes.
pub record HttpRequest : Type 0 where
  pub method : Text
  pub url : Text
  pub body : List (Text × Text)

-- A field that is `undefined` is not written.
unfoldable pub token_field : Option Text → List (Text × Text)
token_field none = []
token_field (some token) = (codes "enroll_token", token) ∷ []

-- The request of each handler; `encode` is `encodeURIComponent`.
unfoldable pub call_request : (Text → Text) → ServerCall → HttpRequest
unfolding token_field
call_request encode (approve_fix id) = record {
  method = codes "POST";
  url = codes "/api/incidents/approve";
  body = (codes "incident_id", id) ∷ [];
}
call_request encode (resolve_incident id) = record {
  method = codes "POST";
  url = codes "/api/incidents/resolve";
  body = (codes "incident_id", id) ∷ (codes "notes", codes "Manually marked resolved by user") ∷ [];
}
call_request encode (delete_device id) = record {
  method = codes "DELETE";
  url = codes "/api/devices?id=" ++ encode id;
  body = [];
}
call_request encode (update_device id name ip token) = record {
  method = codes "PUT";
  url = codes "/api/devices";
  body = (codes "id", id) ∷ (codes "name", name) ∷ (codes "ip_address", ip) ∷ token_field token;
}

pub record ShellState : Type 0 where
  pub data_state : DataState
  pub calls : List ServerCall
  pub refreshes : ℕ

-- `fetchAllData` up to its answers.
unfoldable pub start_fetch : ShellState → ShellState
start_fetch s = record s { data_state = start_refresh s.data_state; refreshes = s.refreshes + 1 }

-- `fetchAllData` from its answers on.
unfoldable pub end_fetch : Option Answers → ShellState → ShellState
end_fetch a s = record s { data_state = end_refresh a s.data_state; refreshes = s.refreshes - 1 }

-- The first effect asks for the data and the metrics.
unfoldable pub first_shell : ShellState
unfolding start_fetch
first_shell = start_fetch (record { data_state = first_data; calls = []; refreshes = 0 })

-- A handler up to its request.
unfoldable pub start_call : ServerCall → ShellState → ShellState
start_call c s = record s { calls = s.calls ++ c ∷ [] }

-- A handler from its answer on: any status counts, but a request that fails is an exception, which
-- ends the handler. `rest` is still unanswered.
unfoldable pub end_call : Bool → List ServerCall → ShellState → ShellState
unfolding start_fetch
end_call is_answered rest s =
    let t = record s { calls = rest } in if is_answered then start_fetch t else t

-- A pushed message, with the refresh that it may start.
unfoldable pub take_message : Message → ShellState → ShellState
unfolding on_message
take_message m s =
    let (d, is_fetching) = on_message m s.data_state in
    record s { data_state = d; refreshes = if is_fetching then s.refreshes + 1 else s.refreshes }

-- The answer to a poll of the metrics.
unfoldable pub take_metrics : Answer NodeMetrics → ShellState → ShellState
take_metrics a s = record s { data_state = fetch_host_metrics a s.data_state }
