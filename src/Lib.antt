-- ===== src/Lib.antt =====
-- The core API of Space Next Door, a marketplace for storage space: what a booking costs, how it
-- is paid, and how it is cancelled or terminated.
--
-- A guest asks for a price (`calculateCheckOutPrice`), creates a booking (`create`), pays it
-- (`payBooking`) and may cancel it before the move in (`cancelBooking`), all in
-- bookings/booking.service.ts. Prices use taxes (applied-taxes/applied-tax.service.ts) and
-- promotions (promotions/promotion/promotion.service.ts for the checkout,
-- bookings/promotions/promotion/promotion.service.ts for renewals); payments and cancellations use
-- stripe/stripe.service.ts and refunds/refund.service.ts.
--
-- Files. Catalog has the enums of graphql.schema.ts. Taxes models `calculateTax`. Promotions/Types
-- has the rows, Promotions/Filter `getFilteredPromotions`, Promotions/Gets the inner loop's
-- discount, Promotions/Amount `getPromotionAmount`; Promotions/Bounds and Promotions/Eligible have
-- its theorems. BookingPromotions models `getBookingPromotionAmount`. Pricing models
-- `getTotalDays`, `getDepositAndSubTotalAmount`, `calculateCheckOutPrice` and the amounts of
-- `create`; Pricing/Rent and Pricing/Agreement compare them. Payments/Stripe models the amounts
-- and customers of Stripe, Payments/World the database and Stripe as a payment sees them,
-- Payments/PayBooking `payBooking`, Payments/Refund `refund`. Cancellation models
-- `getRefundPayloadFromBooking` and `cancelBooking`. Lifecycle models `updateBookingsStatus` and
-- the jobs of cron-job/active-bookings and cron-job/cancel-bookings; Lifecycle/Jobs has what runs
-- of the jobs do to the table, and Lifecycle/Steps the relation of payments, cancellations and
-- jobs on one booking. Terminations/Dues, Terminations/Request and Terminations/Payment model
-- terminations/termination.service.ts, Terminations/Job its `requestTermination` and the job of
-- cron-job/termination, and Terminations/Bounds, Terminations/Outcome and Terminations/JobOutcome
-- have their theorems. Payouts models the job of cron-job/create-payouts, and Payouts/Amounts what
-- it pays. Renewals/Payload models `getRenewalPayload` and the first renewal of `create`,
-- Renewals/Projected the projected amounts, Renewals/Schedule `paymentSchedule`, and
-- Renewals/Agreement and Renewals/Months compare them with the booking and the checkout.
-- Payments/Ledger has the charge that jobs share; PayRenewals/Retry and PayRenewals/Amounts and
-- PayRenewals/Renew model cron-job/pay-renewals, and PayRenewals/RetryOutcome,
-- PayRenewals/Liveness and PayRenewals/RenewOutcome what it leaves. ChangeUnit/Request,
-- ChangeUnit/Swap, ChangeUnit/Change and ChangeUnit/Run model `changeBookingUnit` and
-- `payUnitChangeAmount`; ChangeUnit/ChangeOutcome, ChangeUnit/OldRefunds and ChangeUnit/SwapBounds
-- have what they leave. Pagination models shared/utils/index.ts, and Pagination/Pages reads a list
-- page by page. PriceUpdate models `updateBookingPrice`, and PriceUpdate/Preview compares a
-- preview with the change. RefundDeposits models the job of cron-job/refund-deposit, and
-- RefundDeposits/Once shows how often it refunds. IdsCounter models
-- ids_counter/ids_counter.service.ts, whose ids IdsCounter/Fresh shows to be distinct. Base has
-- the shared names, signed numbers, rounding, and the results of calls; Calendar is the interface
-- to dayjs. Tests has runs at concrete inputs.
--
-- Around the bookings: an order of a pick-up (orders/order.service.ts) is made at the delivery
-- partner and then recorded, paid and cancelled; Orders/Create, Orders/Pay and Orders/Cancel model
-- the three, Logistics the vehicles, the prices and the commission of
-- logistics/logistics.service.ts, and Orders/Steps their sequences, with the time-out of
-- cron-job/cancel-bookings and with `payBooking`, which Orders/WithBooking reads as a payment of
-- the order. Users models how auth/users/user.service.ts finds and makes users, with its theorem
-- in Users/Once. Auth/Otp models auth/otp/otp.services.ts, Auth/Sessions
-- auth/refresh_token/refresh-token.service.ts, and Auth/Login the handlers of
-- auth/auth.resolver.ts that use both; Auth/SessionMap has the map that the table of sessions
-- stands for. Sitelink/Groups, Sitelink/Units and Sitelink/Sync model what
-- cron-job/sitelink-stock-sync does for one site. Quotations/Select and Quotations/Create model
-- `createQuotation` of quotations/quotation.service.ts. Orders/PayOutcome, CancelOutcome and
-- CreateOutcome, Auth/OtpLaws, SessionLaws, LoginOutcome and RefreshOutcome, Sitelink/Conserves,
-- Archives and SpaceTypes, and Quotations/SelectLaws and CreateOutcome have their theorems. Names,
-- passwords and tokens are compared only, and stand as numbers; bcrypt and the JWT library are
-- functions that the theorems take, with the properties they need as hypotheses.
--
-- Money is counted in cents, a whole number with a sign. `parseFloat(x.toFixed(2))` is rounding of
-- a fraction of cents to the nearest cent, half away from 0; products and quotients are exact,
-- where the code has doubles. A price that may be undefined, and then makes a sum NaN, is an
-- optional number. Loops over lists are structural recursion on the list. The loop over the start
-- dates of a payment schedule has the number of days as its fuel, and its theorem shows that this
-- is enough; the client that reads pages has one page more than there are records.
--
-- Outside code. The database, Stripe, the clock and dayjs are not in the repository. Queries are
-- functions of their filter; each call of a payment, refund or cancellation ends as an argument of
-- the model says, so a theorem for all such arguments is about every failure at every call. A
-- calendar is a record of operations on dates, and what a theorem needs of it is a hypothesis. A
-- database transaction keeps committed and pending rows, and a counter of the transactions that
-- are neither committed nor rolled back. Beginning a transaction is taken to go through. Calls
-- that the source starts together are modelled one after the other, as the file says. Logs, mails
-- and text messages are left out, and taken not to throw, except where a file says otherwise.
--
-- Not modelled: the jobs on quotations and on the search index, sites and spaces, the profile of a
-- user, the calls of the delivery partner, reviews, media, and the framework's wiring.
pub mod Base
pub mod Catalog
pub mod Taxes
pub mod Calendar
pub mod Promotions
pub mod BookingPromotions
pub mod Pricing
pub mod Payments
pub mod Cancellation
pub mod Lifecycle
pub mod Terminations
pub mod Payouts
pub mod IdsCounter
pub mod Renewals
pub mod PayRenewals
pub mod ChangeUnit
pub mod PriceUpdate
pub mod Pagination
pub mod RefundDeposits
pub mod Logistics
pub mod Orders
pub mod Users
pub mod Auth
pub mod Sitelink
pub mod Quotations
mod Tests
