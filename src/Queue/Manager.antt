-- ===== src/Queue/Manager.antt =====
-- src/queue/manager.rs: the queue that waits for deliveries to fall due, and the requests on it.
pub mod State
pub mod Times
pub mod Files
pub mod Requests
pub mod Cancel
pub mod Retry
pub mod Loop
pub mod Earliest
pub mod Order
pub mod Coverage
mod Answers
pub mod Canceled
pub mod Turns
