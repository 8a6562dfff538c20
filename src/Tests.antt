-- ===== src/Tests.antt =====
-- Concrete runs: results with hypotheses, each applied to one input on which they hold.
mod Codec
mod Streams
mod Server
mod Client
mod Examples
mod Interleaving
mod Pings
mod Ends
mod Turns
mod Secure
mod SecureClient
