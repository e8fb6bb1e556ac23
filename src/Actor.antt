-- ===== src/Actor.antt =====
-- services/bondster-bco-import/actor: parsing of messages, and the life of a token's actor.
pub mod Parse
pub mod Lifecycle
pub mod Delivery
