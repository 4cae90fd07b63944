-- ===== src/Mcproto.antt =====
-- internal/mcproto: packets of the Java Edition handshake, status and login phases. A reader is the
-- list of the bytes that it still holds; a successful read returns the rest.
pub mod VarInt
pub mod VarIntLaws
pub mod RoundTrip
pub mod Packet
pub mod Handshake
pub mod HandshakeLaws
pub mod HandshakeRoundTrip
pub mod Login
