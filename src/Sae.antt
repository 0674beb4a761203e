-- ===== src/Sae.antt =====
-- internal/sae: the signed announcement envelope (SAE).
pub mod Envelope
pub mod Libs
pub mod Validate
pub mod Sign
pub mod Build
pub mod Tests
