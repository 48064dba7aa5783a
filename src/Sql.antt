-- ===== src/Sql.antt =====
-- The statements that the repositories of src/promo_bot/database execute.
pub mod Rows
pub mod Keys
pub mod Engine
