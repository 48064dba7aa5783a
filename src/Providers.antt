-- ===== src/Providers.antt =====
-- The price policies of src/promo_bot/providers.
pub mod AliExpress
pub mod Shopee
pub mod Images
use promo_bot.Base.{Bool, String, ℕ}

-- `Money` of src/promo_bot/domain/models.py: its amount is rounded to cents and not negative.
pub record Money : Type 0 where
  pub cents : ℕ
  pub currency : String

pub record ProviderError : Type 0 where
  pub code : String
  pub retryable : Bool
  pub manual_review : Bool
