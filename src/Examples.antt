-- ===== src/Examples.antt =====
-- The programs of examples/ that have logic of their own.
pub mod Serving
pub mod ServingTls
pub mod Greeter
pub mod EchoSession
pub mod Echo
pub mod Pings
