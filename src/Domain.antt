-- ===== src/Domain.antt =====
-- src/promo_bot/domain: the states of the workflows and the transitions allowed between them.
pub mod Enums
pub mod Transitions
