-- ===== src/VoiceChat.antt =====
-- internal/voicechat: the gateway of Simple Voice Chat.
pub mod Packet
pub mod Uuid
pub mod PacketLaws
pub mod State
pub mod Handlers
pub mod Steps
pub mod Leases
pub mod Authority
pub mod Expiry
pub mod Api
pub mod Backend
