-- ===== src/Shadow.antt =====
-- The deliveries of the shadow channel, behind src/promo_bot/affiliate/shadow_delivery.py.
pub mod Deliveries
