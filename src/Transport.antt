-- ===== src/Transport.antt =====
-- src/ump/transport.py: the envelopes that carry every message, and the in-memory bus.
pub mod Envelope
pub mod RoundTrip
pub mod Decoded
pub mod Errors
pub mod Bus
pub mod Samples
mod Tests
