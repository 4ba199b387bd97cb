-- ===== src/Demo.antt =====
-- The demo: demo/handler.go, demo/service.go and demo/client.go.
pub mod Store
pub mod Router
pub mod Client
pub mod Link
pub mod Served
pub mod RoundTrip
pub mod Events
pub mod Leak
