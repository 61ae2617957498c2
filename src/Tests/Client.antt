-- ===== src/Tests/Client.antt =====
-- A client behind two proxies, with a made-up address in front of its own, and one on a socket.
use aomori.Prelude.{
  ◌≡◌, refl, ℕ, Bool, true, List, Option, none, some, [], ◌∷◌, ◌++◌, text_key, ◌==◌, ◌&&◌, ltb,
}
use aomori.Json.{null}
use aomori.Model.{WorldEvent}
use aomori.Rpc.Stream.{
  Incoming, client_gone, client_message, received, lagged, Payload, event_payload, lag_payload,
  StreamMetrics, open_socket, websocket_loop,
}
use aomori.Rpc.Delivery.{IsHonest, sent_events, received_events, websocket_loop-InOrder}
use aomori.Rpc.Client.{rsplit, resolve_client_ip, resolve_client_ip-first_stranger}

-- Addresses are single digits, and 1 is a trusted proxy.
abbrev address : List ℕ → Option ℕ
address (digit ∷ []) = some digit
address _ = none

abbrev is_proxy : ℕ → Bool
is_proxy ip = ip == b'1'

abbrev is_ascii : List ℕ → Bool
is_ascii [] = true
is_ascii (byte ∷ bytes) = ltb byte 128 && is_ascii bytes

-- `9,4,1`, and the same behind a byte that is no text.
abbrev forwarded : List ℕ
forwarded = b'9' ∷ b',' ∷ b'4' ∷ b',' ∷ b'1' ∷ []

forwarded-rsplit : rsplit forwarded ≡ (b'1' ∷ []) ∷ (b'4' ∷ []) ∷ (b'9' ∷ []) ∷ []
unfolding aomori.Rpc.Client.split
forwarded-rsplit = refl

spoiled :
    resolve_client_ip address is_proxy is_ascii (some b'1') ((200 ∷ forwarded) ∷ []) ≡ some b'1'
unfolding aomori.Rpc.Client.resolve_client_ip
spoiled = refl

resolve_client_ip-first_stranger_example :
    resolve_client_ip address is_proxy is_ascii (some b'1') (forwarded ∷ []) ≡ some b'4'
resolve_client_ip-first_stranger_example =
    resolve_client_ip-first_stranger address is_proxy is_ascii b'1' b'4' forwarded (b'4' ∷ []) []
      ((b'1' ∷ []) ∷ []) ((b'9' ∷ []) ∷ []) refl forwarded-rsplit ((b'1', refl, refl), tt) refl refl

abbrev event_of : ℕ → WorldEvent
event_of id = record { id = id; head = 0; kind = "waved"; entity_id = none; payload = null }

-- Two events, a gap between them, and a client that leaves.
abbrev session : List (Incoming × Bool)
session =
    (received (event_of 1), true)
    ∷ (client_message, true)
    ∷ (lagged 2, true)
    ∷ (received (event_of 4), true)
    ∷ (client_gone, true)
    ∷ []

abbrev no_sockets : StreamMetrics
no_sockets = record {
  websocket_active = 0;
  websocket_connections = 0;
  websocket_lag_incidents = 0;
  websocket_missed_events = 0;
}

session-sent :
    (websocket_loop (λ _. true) session (open_socket no_sockets)).sent
    ≡ event_payload (event_of 1) ∷ lag_payload 2 1 ∷ event_payload (event_of 4) ∷ []
unfolding aomori.Rpc.Stream.websocket_loop aomori.Rpc.Stream.websocket_turn
    aomori.Rpc.Stream.send_payload aomori.Rpc.Stream.open_socket aomori.Rpc.Stream.close_socket
session-sent = refl

websocket_loop-InOrder_example :
    IsHonest 0 (websocket_loop (λ _. true) session (open_socket no_sockets)).sent
    × ((front : List WorldEvent) × (rest : List WorldEvent) × (sent_events
            (websocket_loop (λ _. true) session (open_socket no_sockets)).sent
          ≡ front)
        × (received_events session ≡ front ++ rest))
websocket_loop-InOrder_example = websocket_loop-InOrder (λ _. true) session no_sockets
