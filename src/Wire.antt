-- ===== src/Wire.antt =====
-- src/Wire.hpp and src/Hmac.hpp: the Buddy client protocol on the wire.
pub mod Codes
pub mod Off
pub mod StateOff
pub mod BwfPose
pub mod Capabilities
pub mod Inbound
pub mod Bundle
pub mod RoundTrip
pub mod Buffer
pub mod Hmac
pub mod ActorUpdate
