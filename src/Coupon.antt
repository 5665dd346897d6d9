-- ===== src/Coupon.antt =====
-- The coupon service: backend/internal/coupon (domain, infra/repository, usecase).
mod Domain
mod Repository
mod UseCases
pub mod Reservation
pub mod RoundTrip
pub mod Applicability
mod Tests
unfoldable pub use Domain.*
unfoldable pub use Repository.*
unfoldable pub use UseCases.*
