-- ===== src/Rpc/Delivery.antt =====
-- src/rpc.rs: what a client of `websocket_loop` gets.
use aomori.Prelude.{ℕ, ◌≡◌, refl, sym, ap, ◌∙◌, Bool, true, false, List, [], ◌∷◌, ◌++◌}
use mathlib.Core.Path.{subst}
use mathlib.Core.List.{append-nil, append_assoc}
use aomori.Model.{WorldEvent}
use aomori.Rpc.Stream.{
  Incoming, client_gone, client_message, stream_closed, received, lagged, Payload, event_payload,
  lag_payload, StreamMetrics, Socket, open_socket, close_socket, send_payload, websocket_turn,
  while_running, websocket_loop, count_lag,
}

-- The events among what was sent, and among what came from the channel.
abbrev pub sent_events : List Payload → List WorldEvent
sent_events [] = []
sent_events (event_payload e ∷ ps) = e ∷ sent_events ps
sent_events (lag_payload missed last ∷ ps) = sent_events ps

abbrev pub received_events : List (Incoming × Bool) → List WorldEvent
received_events [] = []
received_events ((received e, accepted) ∷ rest) = e ∷ received_events rest
received_events ((client_gone, accepted) ∷ rest) = received_events rest
received_events ((client_message, accepted) ∷ rest) = received_events rest
received_events ((stream_closed, accepted) ∷ rest) = received_events rest
received_events ((lagged missed, accepted) ∷ rest) = received_events rest

-- Each notice of missed events names the event that was sent last before it.
abbrev pub IsHonest : ℕ → List Payload → Type 0
IsHonest last [] = Unit
IsHonest last (event_payload e ∷ ps) = IsHonest e.id ps
IsHonest last (lag_payload missed named ∷ ps) = (named ≡ last) × IsHonest last ps

abbrev last_id_of : ℕ → List Payload → ℕ
last_id_of last [] = last
last_id_of last (event_payload e ∷ ps) = last_id_of e.id ps
last_id_of last (lag_payload missed named ∷ ps) = last_id_of last ps

IsHonest-event :
    (last : ℕ) (ps : List Payload) (e : WorldEvent)
    → IsHonest last ps
    → IsHonest last (ps ++ (event_payload e ∷ []))
      × (last_id_of last (ps ++ (event_payload e ∷ [])) ≡ e.id)
IsHonest-event last [] e h = (tt, refl)
IsHonest-event last (event_payload f ∷ ps) e h = IsHonest-event f.id ps e h
IsHonest-event last (lag_payload missed named ∷ ps) e (here, h) =
    let (front, back) = IsHonest-event last ps e h in ((here, front), back)

IsHonest-notice :
    (last missed : ℕ) (ps : List Payload)
    → IsHonest last ps
    → IsHonest last (ps ++ (lag_payload missed (last_id_of last ps) ∷ []))
      × (last_id_of last (ps ++ (lag_payload missed (last_id_of last ps) ∷ []))
          ≡ last_id_of last ps)
IsHonest-notice last missed [] h = ((refl, tt), refl)
IsHonest-notice last missed (event_payload f ∷ ps) h = IsHonest-notice f.id missed ps h
IsHonest-notice last missed (lag_payload m named ∷ ps) (here, h) =
    let (front, back) = IsHonest-notice last missed ps h in ((here, front), back)

sent_events-append :
    (ps qs : List Payload) → sent_events (ps ++ qs) ≡ sent_events ps ++ sent_events qs
sent_events-append [] qs = refl
sent_events-append (event_payload e ∷ ps) qs = ap (λ es. e ∷ es) (sent_events-append ps qs)
sent_events-append (lag_payload m n ∷ ps) qs = sent_events-append ps qs

-- A running socket whose last event is the last one sent.
abbrev Fresh : Socket → Type 0
Fresh s = IsHonest 0 s.sent × (last_id_of 0 s.sent ≡ s.last_event_id)

-- A turn sends the events that it received, or stops.
record Turned (incoming : Incoming) (accepted : Bool) (s t : Socket) : Type 0 where
  honest : IsHonest 0 t.sent
  fresh :
      t.running ≡ true
      → Fresh t
        × (sent_events t.sent ≡ sent_events s.sent ++ received_events ((incoming, accepted) ∷ []))
  stopped : t.running ≡ false → sent_events t.sent ≡ sent_events s.sent

stop-Turned :
    (incoming : Incoming) (accepted : Bool) (s t : Socket)
    → IsHonest 0 s.sent
    → t.sent ≡ s.sent
    → Turned incoming accepted s (close_socket t)
unfolding close_socket
stop-Turned incoming accepted s t h same = record {
  honest = subst (IsHonest 0) (sym same) h;
  fresh = λ on. cc;
  stopped = λ _. ap sent_events same;
}

event-Turned :
    (e : WorldEvent) (accepted : Bool) (s : Socket) (b : Bool)
    → s.running ≡ true
    → Fresh s
    → Turned (received e) accepted s (elim b [
      | true ↦ send_payload accepted (event_payload e) (record s { last_event_id = e.id })
      | false ↦ close_socket (record s { last_event_id = e.id })
    ])
unfolding send_payload
event-Turned e accepted s false on (h, last) =
    stop-Turned (received e) accepted s (record s { last_event_id = e.id }) h refl
event-Turned e false s true on (h, last) =
    stop-Turned (received e) false s (record s { last_event_id = e.id }) h refl
event-Turned e true s true on (h, last) = record {
  honest = (IsHonest-event 0 s.sent e h).0;
  fresh = λ _. (IsHonest-event 0 s.sent e h, sent_events-append s.sent (event_payload e ∷ []));
  stopped = λ off. cc;
}

notice-Turned :
    (missed : ℕ) (accepted : Bool) (s : Socket)
    → s.running ≡ true
    → Fresh s
    → Turned (lagged missed) accepted s (
        send_payload accepted
          (lag_payload missed s.last_event_id)
          (record s { metrics = count_lag missed s.metrics }))
unfolding send_payload
notice-Turned missed false s on (h, last) =
    stop-Turned (lagged missed) false s (record s { metrics = count_lag missed s.metrics }) h refl
notice-Turned missed true s on (h, last) =
    let named : (n : ℕ)
        → last_id_of 0 s.sent ≡ n
        → IsHonest 0 (s.sent ++ (lag_payload missed n ∷ []))
          × (last_id_of 0 (s.sent ++ (lag_payload missed n ∷ [])) ≡ n) =
      λ n is_n.
        subst
          (λ k.
            IsHonest 0 (s.sent ++ (lag_payload missed k ∷ []))
            × (last_id_of 0 (s.sent ++ (lag_payload missed k ∷ [])) ≡ k))
          is_n (IsHonest-notice 0 missed s.sent h) in
    record {
      honest = (named s.last_event_id last).0;
      fresh = λ _. (
        named s.last_event_id last,
        sent_events-append s.sent (lag_payload missed s.last_event_id ∷ []),
      );
      stopped = λ off. cc;
    }

websocket_turn-Turned :
    (writable : WorldEvent → Bool) (incoming : Incoming) (accepted : Bool) (s : Socket)
    → s.running ≡ true
    → Fresh s
    → Turned incoming accepted s (websocket_turn writable incoming accepted s)
unfolding websocket_turn
websocket_turn-Turned writable client_gone accepted s on (h, last) =
    stop-Turned client_gone accepted s s h refl
websocket_turn-Turned writable stream_closed accepted s on (h, last) =
    stop-Turned stream_closed accepted s s h refl
websocket_turn-Turned writable client_message accepted s on (h, last) = record {
  honest = h;
  fresh = λ _. ((h, last), sym (append-nil (sent_events s.sent)));
  stopped = λ off. cc;
}
websocket_turn-Turned writable (received e) accepted s on fresh =
    event-Turned e accepted s (writable e) on fresh
websocket_turn-Turned writable (lagged missed) accepted s on fresh =
    notice-Turned missed accepted s on fresh

-- What a socket has sent behind another: events in the order in which they were received.
abbrev InOrder : Socket → List (Incoming × Bool) → Socket → Type 0
InOrder s inputs t =
    (front : List WorldEvent) × (rest : List WorldEvent) × (sent_events t.sent
      ≡ sent_events s.sent ++ front)
    × (received_events inputs ≡ front ++ rest)

received-cons :
    (incoming : Incoming) (accepted : Bool) (rest : List (Incoming × Bool))
    → received_events ((incoming, accepted) ∷ rest)
      ≡ received_events ((incoming, accepted) ∷ []) ++ received_events rest
received-cons client_gone accepted rest = refl
received-cons client_message accepted rest = refl
received-cons stream_closed accepted rest = refl
received-cons (received e) accepted rest = refl
received-cons (lagged missed) accepted rest = refl

turn_then :
    (incoming : Incoming) (accepted : Bool) (rest : List (Incoming × Bool)) (s t later : Socket)
    (b : Bool)
    → t.running ≡ b
    → Turned incoming accepted s t
    → (b ≡ true → IsHonest 0 later.sent × InOrder t rest later)
    → IsHonest 0 (while_running b later t).sent
      × InOrder s ((incoming, accepted) ∷ rest) (while_running b later t)
turn_then incoming accepted rest s t later false off turned next = (
  turned.honest,
  (
    [],
    received_events ((incoming, accepted) ∷ rest),
    turned.stopped off ∙ sym (append-nil (sent_events s.sent)),
    refl,
  ),
)
turn_then incoming accepted rest s t later true on turned next =
    let (honest, (front, back, sent, came)) = next refl in
    let one = received_events ((incoming, accepted) ∷ []) in
    (
      honest,
      (
        one ++ front,
        back,
        sent
            ∙ ap (λ es. es ++ front) (turned.fresh on).1
            ∙ append_assoc (sent_events s.sent) one front,
        received-cons incoming accepted rest
            ∙ ap (λ es. one ++ es) came
            ∙ sym (append_assoc one front back),
      ),
    )

loop_delivers :
    (writable : WorldEvent → Bool) (inputs : List (Incoming × Bool)) (s : Socket)
    → s.running ≡ true
    → Fresh s
    → IsHonest 0 (websocket_loop writable inputs s).sent
      × InOrder s inputs (websocket_loop writable inputs s)
unfolding websocket_loop
loop_delivers writable [] s on (h, last) =
    (h, ([], [], sym (append-nil (sent_events s.sent)), refl))
loop_delivers writable ((incoming, accepted) ∷ rest) s on fresh =
    let t = websocket_turn writable incoming accepted s in
    let turned = websocket_turn-Turned writable incoming accepted s on fresh in
    turn_then incoming accepted rest s t (websocket_loop writable rest t) t.running refl turned
      λ still. loop_delivers writable rest t still (turned.fresh still).0

-- Whatever a client's socket and the channel do, the events that the client gets are the first of
-- those that its receiver got, in their order, and each notice of missed events names the id of the
-- event that was sent last before it, or 0 if there was none.
pub websocket_loop-InOrder :
    (writable : WorldEvent → Bool) (inputs : List (Incoming × Bool)) (m : StreamMetrics)
    → IsHonest 0 (websocket_loop writable inputs (open_socket m)).sent
      × ((front : List WorldEvent) × (rest : List WorldEvent) × (sent_events
              (websocket_loop writable inputs (open_socket m)).sent
            ≡ front)
          × (received_events inputs ≡ front ++ rest))
unfolding open_socket
websocket_loop-InOrder writable inputs m =
    loop_delivers writable inputs (open_socket m) refl (tt, refl)
