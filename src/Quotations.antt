-- ===== src/Quotations.antt =====
-- src/quotations/quotation.service.ts: the offers of spaces that a visitor asks for.
pub mod Types
pub mod Select
pub mod SelectLaws
pub mod Create
pub mod CreateOutcome
