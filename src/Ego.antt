-- ===== src/Ego.antt =====
-- packages/ego: the judgment layer between the message bus and the control plane.
pub mod CircuitBreaker
pub mod States
pub mod Goals
pub mod Layer
mod Tests
