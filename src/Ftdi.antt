-- ===== src/Ftdi.antt =====
-- lib/go/transport_ftdi.go: how bytes pass through the USB endpoints.
pub mod Config
pub mod Endpoint
pub mod Writing
pub mod Baud
pub mod Usb
pub mod Transport
mod Runs
