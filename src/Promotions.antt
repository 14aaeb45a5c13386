-- ===== src/Promotions.antt =====
-- src/promotions/promotion/promotion.service.ts: `getPromotionAmount` and the filter before it.
-- Prices and discounts are in cents, a discount's value in hundredths, the commitment in tenths
-- of a month. The query over the promotions table is the parameter `find_promotions`.
pub mod Types
pub mod Filter
pub mod Gets
pub mod Amount
pub mod Bounds
pub mod Eligible
