-- ===== src/Invoices/Outcomes.antt =====
-- What a recalculation of an invoice answers and writes
-- (`calculate_invoice_price_and_set_final_price_if_paid` of src/services/invoice.rs).
use billing.Currency.{Currency}
