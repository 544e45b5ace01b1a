-- ===== src/Queue.antt =====
-- backend/message_queue.py: the class MessageQueue. State holds its fields, Step its methods and
-- the worker as steps between two awaits; the other modules prove what they do.
pub mod State
pub mod Step
pub mod Run
pub mod Flow
pub mod Conservation
pub mod Balance
pub mod Dispatch
pub mod Rounds
pub mod Encryption
pub mod Frame
pub mod Order
pub mod Tasks
pub mod Drain
pub mod Retries
pub mod Exhaustion
pub mod Stuck
pub mod Waiting
pub mod Steady
pub mod Captures
pub mod Energy
pub mod Spending
pub mod Termination
pub mod Shutdown
