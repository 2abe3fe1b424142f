-- ===== src/Sip.antt =====
-- internal/telephony/sip: SIP trunks, their configuration, its text for Asterisk, and its installation.
pub mod Config
pub mod Pjsip
pub mod Pinning
pub mod Resolver
pub mod Ownership
pub mod Reloader
pub mod Manager
pub mod Installation
pub mod Tests
