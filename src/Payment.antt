-- ===== src/Payment.antt =====
-- The payment service: backend/internal/payment (domain, infra/repository, usecase, job).
mod Domain
mod Store
mod Repository
mod UseCases
pub mod Graph
pub mod StateMachine
pub mod Rows
pub mod Callback
pub mod Events
pub mod Replay
pub mod Prepay
mod Tests
unfoldable pub use Domain.*
unfoldable pub use Store.*
unfoldable pub use Repository.*
unfoldable pub use UseCases.*
