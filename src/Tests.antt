-- ===== src/Tests.antt =====
-- Witnesses and tests at concrete inputs.
mod Sample
mod TaxTests
mod PromotionTests
mod PricingTests
mod PaymentTests
mod CancellationTests
mod LifecycleTests
mod TerminationTests
mod PayoutTests
mod IdsTests
mod RenewalTests
mod PayRenewalTests
mod ChangeUnitTests
mod TerminationJobTests
mod RefundDepositTests
mod PriceUpdateTests
mod PaginationTests
mod OrderTests
mod AuthTests
mod SitelinkTests
mod QuotationTests
mod UserTests
