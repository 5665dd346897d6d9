-- ===== src/Cart.antt =====
-- The rows of the carts: backend/internal/cart.
mod Rows
pub mod Lookups
pub mod Changes
pub mod Refinement
pub mod Lines
pub mod Invariant
pub mod Refusal
mod Tests
unfoldable pub use Rows.*
