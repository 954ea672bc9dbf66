-- ===== src/User/Tests.antt =====
-- A subscriber and a request handler, each the first of its manager.
use oregano.Base.{ℕ, String, ◌≡◌, refl, List, [], ◌∷◌, ok, Exec, Void, arith}
use oregano.Broker.{Brokered}
use oregano.Dict.{find}
use oregano.Events
use oregano.Events.{Subscriber}
use oregano.Fixtures.{Board, test_broker, new_manager}
use oregano.Manager
use oregano.Manager.{event, transaction}
use oregano.Responder
use oregano.Responder.{RequestHandler}
use oregano.RoundTrip.{request_text}
use oregano.RoundTrip.Plain.{plain_json, plain_base64}
use oregano.User.{Handling, create_subscriber, create_request_handler}
use oregano.User.Programs.{receiving, serving, receiving_lem, serving_lem}

-- The state is what the callbacks have got, or what has been published.
abbrev World : Type 0
World = List (String × String)

abbrev keep : String → String → Void World
keep channel text w = (ok tt, (channel, text) ∷ w)

abbrev reply : String → String → Exec World String
reply channel text w = (ok "pong", w)

abbrev reader : Handling (Subscriber World) (Brokered ℕ Board)
reader = record { handler = Events.create; managed = new_manager event }

abbrev server : Handling (RequestHandler World) (Brokered ℕ Board)
server = record { handler = Responder.create; managed = new_manager transaction }

reader-called :
    let after = (receiving (create_subscriber test_broker 7) keep "news" reader).1 in
    Manager.on_message
      (Events.receive plain_base64 (λ _. after.handler))
      after.managed.manager
      "news"
      "hello"
      []
    ≡ (ok tt, ("news", "hello") ∷ [])
unfolding find Manager.create
reader-called = receiving_lem test_broker 7 plain_base64 keep "news" "hello" reader [] refl

server-called :
    let after = (serving (create_request_handler test_broker 7) reply "work" server).1 in
    Manager.on_message
      (λ _.
        Responder.on_message plain_json plain_base64 1000 after.handler.on_request_callback keep
          8500)
      after.managed.manager
      "work"
      (request_text plain_json plain_base64 1000 "responses" "x1" 9000 "ping")
      []
    ≡ (
      ok tt,
      (
        "responses",
        plain_json.dump (Responder.response_frame plain_json plain_base64 1000 "x1" "pong"),
      )
          ∷ [],
    )
unfolding find Manager.create
server-called =
    serving_lem test_broker 7 plain_json plain_base64 1000 reply keep "work" "responses" "x1" "ping"
      9000 8500 server [] refl (omega arith) (omega arith)
