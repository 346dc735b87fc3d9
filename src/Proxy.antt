-- ===== src/Proxy.antt =====
-- The protocol between the API and the desktop proxies: pkg/proxyproto.
pub mod Wire
pub mod Lines
pub mod Integers
pub mod Conn
pub mod Requests
pub mod Delivery
pub mod RoundTrip
pub mod Paths
pub mod PathLaws
pub mod Host
pub mod Server
pub mod Client
pub mod Spec
pub mod Exchange
pub mod Download
pub mod Copied
pub mod Upload
pub mod Faults
pub mod Tests
