-- ===== src/Lib.antt =====
-- Billing: the service of a marketplace that takes payments for orders, in fiat money through a
-- card processor and in cryptocurrencies through a payments gateway, and pays sellers out.
--
-- The program's parts, and the files that model them:
--
-- - Base: names of the libraries passed on, Boolean tests, lists over the native numbers, results
--   with the error kinds of the repositories, the services and the event handlers
--   (src/repos/error.rs, src/services/error.rs, src/event_handling/error.rs), and texts as bytes.
-- - Currency: the enums of src/models/currency.rs with their conversions and text forms.
-- - Amount: src/models/amount.rs. An amount is a number below 2^128; the checked operations answer
--   with an option. Amount.to_base_10000 runs on fuel, ten digits, which is enough since 2^128 is
--   below 10000^10. An `i16` is its two's complement, and the power of ten wraps around as in a
--   release build. Amount/SuperUnits converts between a currency's smallest unit and the unit that
--   users see; the decimal numbers of `bigdecimal` are a parameter.
-- - EventStore: src/models/event_store.rs (EventStore/Entry) and src/repos/event_store.rs. Each
--   method is a function from the table to its result and the table that it leaves; one statement
--   or one transaction is one step. The clock's reading and the rows that other sessions hold
--   locked are arguments. Events, JSON values and serde_json's two functions are parameters.
--   EventStore/Calls runs methods in sequence, as the clients of the store interleave them.
-- - Acl: the permissions of src/repos/acl/mod.rs and the enums of src/models/authorization. The
--   repositories take an access control as an argument, a test of a resource, an action and the
--   object at hand, which `allows` is once it has the scope test of the repository.
-- - PaymentIntents: the reads of src/repos/payment_intent.rs and
--   src/repos/payment_intents_invoices.rs.
-- - Orders: src/models/payment_state.rs (Orders/State), src/models/order_v2.rs and
--   src/repos/orders.rs (Orders, and Orders/Search for its search), src/services/order.rs with the
--   handler of the capture event of src/event_handling/handlers.rs (Orders/Service). Orders/Reach
--   runs requests in sequence.
-- - Payouts: src/models/payout.rs (Payouts/Records), src/repos/payouts.rs (Payouts),
--   src/services/payout/mod.rs (Payouts/Service), and the handler of `PayoutInitiated` of
--   src/event_handling/handlers.rs (Payouts/Sending).
-- - Rates: src/models/order_exchange_rate.rs and src/repos/order_exchange_rates.rs. A rate's number
--   is a parameter. Rates/Runs runs calls in sequence.
-- - Invoices: src/models/invoice_v2.rs and src/repos/invoices_v2.rs, with the table of the amounts
--   received, and what the callback for an incoming transaction in src/services/invoice.rs writes
--   to them (Invoices/Inbound). An invoice's status is a parameter. Invoices/Runs runs calls in
--   sequence, of the kinds that are made for invoices paid through an account. Of the service, the
--   price of an invoice (Invoices/Price), the moment in which it becomes paid
--   (Invoices/Settlement) and its recalculation at refreshed rates (Invoices/Refresh) are modelled,
--   over the tables of orders, rates, accounts and events and the payments gateway.
-- - Accounts: src/models/account.rs and src/repos/accounts.rs (Accounts), and
--   src/services/accounts.rs (Accounts/Service), over a payments gateway with a state of its own.
-- - Roles: src/models/role.rs, src/repos/user_roles.rs, src/repos/acl/roles_cache.rs and the
--   access control that src/repos/repo_factory.rs makes of a caller's roles (Roles), and
--   src/services/user_roles.rs (Roles/Service). Roles/Plain is the service over the table alone,
--   which the service with its cache implements; a cache may fail and may lose entries.
-- - Stripe: what customers and charges use of src/client/stripe, over a state of the card
--   processor.
-- - Customers: src/models/customer.rs and src/repos/customer.rs (Customers), and
--   src/services/customer.rs (Customers/Service).
-- - Fees: src/models/fee and src/repos/fee.rs (Fees), and src/services/fee.rs (Fees/Service),
--   which charges a store's owner as a customer and marks the fees.
-- - Subscriptions: the rows of src/models/subscription.rs with the choice of what is collected in
--   src/services/subscription_payment.rs (Subscriptions), src/repos/store_subscription.rs and
--   src/services/store_subscription.rs (Subscriptions/Stores), src/repos/subscription.rs
--   (Subscriptions/Repo), src/services/subscription.rs (Subscriptions/Accrual),
--   src/repos/subscription_payment.rs (Subscriptions/Payments), and how payments are prepared,
--   collected and recorded in src/services/subscription_payment.rs (Subscriptions/Collection). The
--   calendar is a parameter.
-- - EventHandling: the worker of src/event_handling/mod.rs over the event store; what handles an
--   event is a parameter, which may call the event store. The timer's rounds are a list.
--
-- How they interact: the order service stores a capture event in the event store for a fiat order,
-- and the payout service an event for each payout; the handlers read and write orders and payouts
-- when the events are handed out. Fees are charged for orders, and subscriptions are collected,
-- from the customer of the user whose role names the store; a subscription in STQ is paid to the
-- main account of the account service. The roles of a caller, listed through the cache, give the
-- access control that every repository takes. Services keep several tables, and the state of an
-- outside party, in a record named World, and write them in the order of the code, so that a
-- failure leaves what was written before it; what one transaction of the database takes back is
-- taken back.
--
-- Identifiers (UUIDs and integers) are natural numbers, and generated ones are arguments.
-- Timestamps are microseconds. Rows of a table stand in a list, in the order of the primary key
-- for the event store. A unique key is checked by the insert, for which two missing values
-- differ; foreign keys are taken to hold. Database failures other than a missing row and a
-- violated unique key are not modelled, nor are logs and error messages. The card processor's
-- refund, the share of a charge's fee, the payments gateway and the main account are parameters.
--
-- Not modelled: the creation and deletion of invoices by the service, the other handlers of
-- events, billing information and wallets, the webhooks of the card processor, the text forms of
-- the statuses of subscriptions, the outputs that turn amounts into decimal numbers, and the
-- HTTP layer with its clients. The first two carry logic of their own; the others store and
-- fetch rows or pass requests on. Calls of the services on roles are not interleaved within a
-- transaction.
pub mod Base
pub mod Currency
pub mod Customers
pub mod EventStore
pub mod Amount
pub mod Acl
pub mod Orders
pub mod PaymentIntents
pub mod Payouts
pub mod Rates
pub mod Invoices
pub mod Subscriptions
pub mod Accounts
pub mod Roles
pub mod Stripe
pub mod Fees
pub mod EventHandling
