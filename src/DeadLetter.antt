-- ===== src/DeadLetter.antt =====
-- backend/dead_letter_office.py: the dead letter and its two serialisations. Office holds the class
-- DeadLetterOffice over a Redis client; the other modules prove what it does.
pub mod Letter
pub mod Redis
pub mod Office
pub mod Recovery
pub mod Memory
pub mod Purge
pub mod Failover
pub mod Encoded
pub mod Unordered
pub mod Backends
pub mod Removals
pub mod Client
