-- ===== src/Audio.antt =====
-- The audio HAL (audio/): the primary output and input streams, the mixer, voice calls, the RIL.
pub mod Mixer
pub mod Routes
pub mod Ril
pub mod Device
pub mod Gain
pub mod Output
pub mod Standby
pub mod Balance
pub mod Start
pub mod Open
pub mod Modem
pub mod Mode
pub mod Input
pub mod Params
pub mod Capture
pub mod Write
pub mod Effects
pub mod Frames
pub mod Reach
pub mod Tests
