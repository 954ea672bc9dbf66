-- ===== src/RoundTrip/Tests.antt =====
-- A request that is answered, one that comes too late, and the response's way to its promise.
use oregano.Base.{ℕ, String, ◌≡◌, refl, ok, Exec, Void, arith, List, [], ◌∷◌, String_discrete}
use oregano.Dict.{find, put}
use oregano.Interfaces.{IMessageBroker}
use oregano.Events
use oregano.Requester.{TransactionInterface, send_request, receive_response}
use oregano.Responder.{response_frame}
use oregano.Responder
use oregano.RoundTrip.Plain.{plain_json, plain_base64}
use oregano.RoundTrip.{request_text, request_answered, request_dropped}
use oregano.RoundTrip.Responses.{awaiting, send_request_lem, response_resolves, round_trip}

-- The state is what the promises have got.
abbrev World : Type 0
World = List (ℕ × String)

abbrev on_response : ℕ → String → Void World
on_response promise answer w = (ok tt, (promise, answer) ∷ w)

abbrev callback : String → String → Exec World String
callback channel request w = (ok "pong", w)

abbrev transaction : TransactionInterface
transaction = record { response_channel = "responses"; on_response_callbacks = [] }

-- A broker that passes each publication to the one subscriber.
abbrev wired : IMessageBroker ℕ World
wired = record {
  publish = λ c t w.
      Events.on_message plain_base64
        (λ _ m.
          receive_response plain_json plain_base64 on_response (awaiting transaction "x1" 5) m)
        "responses" t w;
  subscribe = λ c w. (ok tt, w);
  unsubscribe = λ c w. (ok tt, w);
  register_event_callback = λ c k w. (ok "0", w);
  remove_event_callback = λ c w. (ok tt, w);
  send_request = λ c t w. (ok tt, w);
  listen = λ c w. (ok tt, w);
  stop_listening = λ c w. (ok tt, w);
  register_transaction_callback = λ c k w. (ok "0", w);
  remove_transaction_callback = λ c w. (ok tt, w);
}

abbrev publish : String → String → Void World
publish channel t w = (ok tt, w)

abbrev ping : String
ping = request_text plain_json plain_base64 1000 "responses" "x1" 9000 "ping"

ping-answered :
    Responder.on_message plain_json plain_base64 1000 callback publish 8500 "work" ping []
    ≡ (ok tt, [])
ping-answered =
    request_answered plain_json plain_base64 1000 callback publish "work" "responses" "x1" "ping"
      9000 8500 [] (omega arith) (omega arith)

request_dropped_example :
    Responder.on_message plain_json plain_base64 1000 callback publish 10000 "work" ping []
    ≡ (ok tt, [])
request_dropped_example =
    request_dropped plain_json plain_base64 1000 callback publish "work" "responses" "x1" "ping"
      9000 10000 [] (omega arith) (omega arith)

work-answered :
    Responder.on_message plain_json plain_base64 1000 callback
      (Events.publish plain_base64 wired)
      8500
      "work"
      ping
      []
    ≡ (ok tt, (5, "pong") ∷ [])
work-answered =
    round_trip plain_json plain_base64 1000 wired callback on_response transaction "x1" 5 "work"
      "ping" 9000 8500 (omega arith) (omega arith) (λ t w. refl) []

response-resolved :
    receive_response plain_json plain_base64 on_response
      (awaiting transaction "x1" 5)
      (plain_json.dump (response_frame plain_json plain_base64 1000 "x1" "pong"))
      []
    ≡ (ok tt, (5, "pong") ∷ [])
unfolding find put String_discrete
response-resolved =
    response_resolves plain_json plain_base64 1000 on_response (awaiting transaction "x1" 5) "x1"
      "pong" []

send_request_lem_example :
    send_request plain_json plain_base64 1000 wired "x1" 5 0 "work" "ping" 9
      (record { transaction = transaction; broker = [] })
    ≡ (ok 5, record { transaction = awaiting transaction "x1" 5; broker = [] })
unfolding find
send_request_lem_example =
    send_request_lem plain_json plain_base64 1000 wired
      (record { transaction = transaction; broker = [] }) "x1" 5 0 "work" "ping" 9 refl
