-- ===== src/Wire.antt =====
-- server/relay/frame.go: the relay's wire protocol, which daemon/internal/transport/relay/client.go
-- mirrors. Control frames are JSON texts, data frames are bytes.
pub mod Control
mod Bits
pub mod Data
pub mod Mirror
pub mod RoundTrip
mod Tests
