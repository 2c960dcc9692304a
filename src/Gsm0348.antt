-- ===== src/Gsm0348.antt =====
-- pkg/gsm0348: the secured packets of GSM 03.48.
pub mod Types
pub mod Header
pub mod Crypto
pub mod Command
pub mod Response
