-- ===== src/Rpc/Stream.antt =====
-- src/rpc.rs: `websocket_loop`. What the socket and the channel bring next, and whether the socket
-- takes what is sent, is a list; after the list the loop waits.
use aomori.Prelude.{ℕ, ◌-◌, Bool, true, false, List, [], ◌∷◌, ◌++◌, wrapping_add}
use aomori.Model.{WorldEvent}

-- `Lagged` has the number of events that the channel dropped for this receiver.
pub data Incoming : Type 0 where
  client_gone client_message stream_closed : Incoming
  received : WorldEvent → Incoming
  lagged : ℕ → Incoming

pub data Payload : Type 0 where
  event_payload : WorldEvent → Payload
  lag_payload : ℕ → ℕ → Payload

pub record StreamMetrics : Type 0 where
  pub websocket_active : ℕ
  pub websocket_connections : ℕ
  pub websocket_lag_incidents : ℕ
  pub websocket_missed_events : ℕ

-- The loop: the metrics of the server, the id of the last event, what was sent, and whether it runs.
pub record Socket : Type 0 where
  pub metrics : StreamMetrics
  pub last_event_id : ℕ
  pub sent : List Payload
  pub running : Bool

unfoldable pub open_socket : StreamMetrics → Socket
open_socket m = record {
  metrics = record m {
    websocket_active = wrapping_add m.websocket_active 1;
    websocket_connections = wrapping_add m.websocket_connections 1;
  };
  last_event_id = 0;
  sent = [];
  running = true;
}

-- `break`, and `saturating_sub(1)` behind the loop
unfoldable pub close_socket : Socket → Socket
close_socket s = record s {
  metrics = record s.metrics { websocket_active = s.metrics.websocket_active - 1 };
  running = false;
}

-- `socket.send(...).await`, which breaks the loop when it fails
unfoldable pub send_payload : Bool → Payload → Socket → Socket
send_payload true payload s = record s { sent = s.sent ++ (payload ∷ []) }
send_payload false payload s = close_socket s

abbrev pub count_lag : ℕ → StreamMetrics → StreamMetrics
count_lag missed m = record m {
  websocket_lag_incidents = wrapping_add m.websocket_lag_incidents 1;
  websocket_missed_events = wrapping_add m.websocket_missed_events missed;
}

-- One turn of the loop. `writable` says whether `serde_json::to_string` writes the event.
unfoldable pub websocket_turn : (WorldEvent → Bool) → Incoming → Bool → Socket → Socket
websocket_turn writable client_gone accepted s = close_socket s
websocket_turn writable client_message accepted s = s
websocket_turn writable stream_closed accepted s = close_socket s
websocket_turn writable (received e) accepted s =
    let next = record s { last_event_id = e.id } in
    elim (writable e) [
      | true ↦ send_payload accepted (event_payload e) next
      | false ↦ close_socket next
    ]
websocket_turn writable (lagged missed) accepted s =
    send_payload accepted (lag_payload missed s.last_event_id)
      (record s { metrics = count_lag missed s.metrics })

abbrev pub while_running : Bool → Socket → Socket → Socket
while_running true later stopped = later
while_running false later stopped = stopped

unfoldable pub websocket_loop : (WorldEvent → Bool) → List (Incoming × Bool) → Socket → Socket
websocket_loop writable [] s = s
websocket_loop writable ((incoming, accepted) ∷ rest) s =
    let next = websocket_turn writable incoming accepted s in
    let later = websocket_loop writable rest next in while_running next.running later next
