-- ===== src/Currency/Tests.antt =====
-- Currencies at concrete texts.
use billing.Base.{◌≡◌, refl, codes, to_ascii_lowercase, lower}
use billing.Currency.{Currency, display}

lowered : to_ascii_lowercase (codes "Stq") ≡ display Currency.stq
unfolding lower display
lowered = refl
