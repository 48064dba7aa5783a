-- ===== src/Security.antt =====
-- src/promo_bot/security.
pub mod Expansion
