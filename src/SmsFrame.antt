-- ===== src/SmsFrame.antt =====
-- pkg/smsframe: framing of command packets as SMS, splitting into concatenated parts, reading of
-- the user data header, and reassembly of concatenated parts.
pub mod Frame
pub mod Udh
pub mod Split
pub mod Reassembly
pub mod RoundTrip
