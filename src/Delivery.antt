-- ===== src/Delivery.antt =====
-- src/promo_bot/database/delivery_repository.py and src/promo_bot/delivery/service.py: the outbox.
pub mod Model
pub mod Repository
pub mod Requests
pub mod Service
