-- ===== src/Seckill.antt =====
-- The seckill (flash sale) service: backend/internal/seckill.
mod Domain
mod Store
mod Repository
mod Transactions
mod Cache
mod Processor
mod DeadLetters
mod Submit
mod Activities
pub mod Machine
pub mod Soundness
pub mod Units
pub mod Moves
pub mod Reachable
pub mod Statements
pub mod Advance
pub mod Returns
pub mod Refinement
pub mod Lifecycle
pub mod Stranded
pub mod Rows
pub mod AdvanceRows
pub mod Settlement
pub mod Processing
pub mod Reservation
pub mod Scripts
pub mod Admission
mod Tests
unfoldable pub use Domain.*
unfoldable pub use Store.*
unfoldable pub use Repository.*
unfoldable pub use Transactions.*
unfoldable pub use Cache.*
unfoldable pub use Processor.*
unfoldable pub use DeadLetters.*
unfoldable pub use Submit.*
unfoldable pub use Activities.*
