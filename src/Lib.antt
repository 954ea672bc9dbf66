-- ===== src/Lib.antt =====
-- oregano: a messaging library over a message broker, for events (publish and subscribe) and for
-- transactions (request and response). Paths in the comments are from the repository's root; the
-- code is in src/implementation and src/interface/oregano.
--
-- The program. A user opens event and transaction interfaces on one broker. Each interface owns a
-- MessageHandlerManager, a map from channels to the handlers that listen there. A manager asks the
-- broker for a channel with its first handler and gives it back with the last one; the broker
-- counts such calls over all managers, and asks the connector, which speaks to Redis, with the
-- first and the last. Messages come the other way: the connector's threads call the broker's
-- callbacks, these the managers, these the handlers. A request is framed in JSON, put in a queue,
-- taken by one handler, and answered on the sender's response channel under the request's id,
-- where a ResponsePromise waits for it with a time limit.
--
-- The files, with what they model:
--   Base: shared names, conditionals, `Result` and `Exec` (a state and an exception), lists
--   Dict: std::unordered_map as an association list; the order is that of an iteration
--   Interfaces: IMessageBroker.h and IMessageBrokerConnector.h as records of operations;
--     RefCounts and Topics are the contracts of the two
--   Config: BrokerConfiguration.cpp and the class of its header; Factory: MessageBrokerFactory.cpp,
--     MessageBrokerWrapper.cpp and the way of the settings to the client of Redis
--   Manager: MessageHandlerManager.cpp, a method by a definition of its name; `remove_everywhere`
--     is `remove_message_handler` with one argument; Requests has the calls as data
--   Broker: MessageBroker.cpp, a method by a definition of its name
--   Sharing: EventInterface.cpp, TransactionInterface.cpp and MessageBrokerWrapper.cpp, as far as
--     they put managers on one broker
--   Lifecycle: the constructors and destructors of EventInterface.cpp and TransactionInterface.cpp
--   Events: Publisher.cpp and Subscriber.cpp
--   Messages, Requester, Responder, RoundTrip: RequestSender.cpp, RequestHandler.cpp and the
--     response side of TransactionInterface.cpp
--   Promise: ResponsePromise.cpp, with its threads as a step relation; Lifetime adds its destructor,
--     the callback of `then`, and the registry of TransactionInterface.cpp, Twice a second response
--   Connector: RedisBrokerConnector.cpp; Queue has the queues and their worker thread, Handshake the
--     subscriptions and the subscriber thread, both from the constructor to the destructor, with
--     Failures for a connection that throws there, and Reentry for a callback of the subscriber
--     thread that subscribes; Methods has every method as the broker calls it,
--     Served the managers and the broker on top, and Delivered, Answered and Requested the ways of
--     an event, of a response and of a whole transaction through all the layers
--   User: the classes of src/interface/oregano that users call, as records of operations, with how
--     EventInterface.cpp and TransactionInterface.cpp make them
--   Examples: the programs in examples; Events has the publisher and the subscriber, Transactions
--     the producer and the consumer, Connected what is the same in all four
--   Fixtures and the modules Tests: concrete inputs
--
-- The model. A method that holds a lock from its first line to its last is a function on the
-- state; where threads meet without one (Promise, Connector) each access is a step, and the steps
-- interleave in any order. A handler is its address, a number. `size_t` is a number below 2^64,
-- with its wrap-around written out; the clock is a number of ticks. The timeout of a request, a
-- signed number of milliseconds in the source, is a number here: it is not negative, and so small
-- that the clock does not overflow with it. The count of the publisher in examples is an `int`, with
-- its overflow left open. The loops run over lists, so no fuel is needed. Identifiers that the
-- program draws at random are arguments.
--
-- The callbacks of the connector's two threads are steps of these threads. In Handshake and in
-- Queue such a callback is one step of the thread, which returns; it does not call `subscribe` or
-- `unsubscribe` of the connector, for instance by a manager of another interface. A callback of the
-- subscriber thread that does is modelled apart, in Connector/Handshake/Reentry.
--
-- Parameters, as their code lies elsewhere: nlohmann::json (Messages.JsonObjects), cppcodec
-- (Messages.Base64), and the lists and the channels of Redis (Connector.Redis), each with the
-- behaviour that its documentation gives; and the constructors of the client, which connect or
-- throw (`connect` in Factory).
--
-- Not modelled: a timeout below zero or past the clock's end; a callback of the connector's threads
-- that does not return for another reason, or that waits for its own thread elsewhere; a second
-- response to a promise that is being destroyed; use of other objects after their destruction; a
-- connection that throws in a worker thread, in the queues or in a publication; in the examples,
-- the pauses between two rounds and the mutex of the producer; the tests.
pub mod Base
pub mod Dict
pub mod Interfaces
pub mod Config
pub mod Manager
pub mod Broker
pub mod Sharing
pub mod Messages
pub mod Events
pub mod Requester
pub mod Responder
pub mod RoundTrip
pub mod Promise
pub mod Connector
pub mod Factory
pub mod User
pub mod Lifecycle
pub mod Examples
pub mod Fixtures
