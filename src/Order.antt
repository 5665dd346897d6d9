-- ===== src/Order.antt =====
-- The order service: backend/internal/order (domain, infra/repository, usecase, job, infra/mq).
mod Domain
mod Store
mod Repository
mod Outbox
mod CreateOrder
mod UseCases
mod Jobs
pub mod Transitions
pub mod Reads
pub mod Creation
pub mod Amounts
pub mod StatusChange
pub mod Cancellation
pub mod Expiry
pub mod Delivery
pub mod Worker
pub mod Progress
mod Tests
unfoldable pub use Domain.*
unfoldable pub use Store.*
unfoldable pub use Repository.*
unfoldable pub use Outbox.*
unfoldable pub use CreateOrder.*
unfoldable pub use UseCases.*
unfoldable pub use Jobs.*
