-- ===== src/Checkout.antt =====
-- The checkout service: backend/internal/checkout (domain, usecase).
mod Domain
mod Adapters
mod PlaceOrder
pub mod Stock
pub mod Pricing
pub mod Compensation
mod Tests
unfoldable pub use Domain.*
unfoldable pub use Adapters.*
unfoldable pub use PlaceOrder.*
