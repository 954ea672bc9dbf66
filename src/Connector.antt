-- ===== src/Connector.antt =====
-- src/implementation/RedisBrokerConnector.cpp and .h: Redis as a message broker. Queue is about
-- the requests and the worker thread that takes them, Handshake about the subscriptions and the
-- subscriber thread; Methods has the class as the broker calls it, Covered fills the contract
-- of a connector, Served has the layers on top, Delivered, Answered and Requested the ways of
-- an event, of a response and of a whole transaction through them.
pub mod Redis
pub mod Handshake
pub mod Queue
pub mod Methods
pub mod Covered
pub mod Served
pub mod Delivered
pub mod Answered
pub mod Requested
pub mod Memory
mod Tests
