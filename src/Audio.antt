-- ===== src/Audio.antt =====
-- The audio definitions of RS485/tl/native_client/jni/system/audio.h.
pub mod Devices
pub mod Channels
pub mod Formats
pub mod Kinds
pub mod Output
pub mod Input
pub mod Masks
pub mod Encoding
pub mod Tests
