-- ===== src/Trust.antt =====
-- src/trust.c: the trust anchors read from a PEM file. BearSSL's decoders answer as the events and the
-- bytes that they give; allocations answer through a function of the size.
pub mod Buffer
pub mod Anchor
pub mod Pem
