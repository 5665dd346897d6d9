-- ===== src/Inventory.antt =====
-- The inventory service: backend/internal/inventory (infra/repository/gorm.go, usecase,
-- transport/grpc/handler.go, infra/mq/order_consumer.go).
mod Store
mod Repository
mod Service
pub mod Ledger
pub mod Commit
pub mod Refund
mod Tests
unfoldable pub use Store.*
unfoldable pub use Repository.*
unfoldable pub use Service.*
