-- ===== src/Balancer.antt =====
-- The weighted round robin of the RPC clients: backend/pkg/grpcx/balancer/wrr.
mod Picker
pub mod Greatest
pub mod Rotation
mod Tests
unfoldable pub use Picker.*
