-- ===== src/Currency/Equality.antt =====
-- The equality of currencies (the derived `PartialEq` in src/models/currency.rs) decides.
use billing.Base.{ℕ, ◌≡◌, refl, sym, ap, ◌∙◌, true, ◌==◌, ==_iff, if◌then◌else◌}
use billing.Currency.{Currency, currency_code, currency_eq}

currency_of : ℕ → Currency
currency_of n =
    if n == 0
    then Currency.eth
    else if n == 1
    then Currency.stq
    else if n == 2
    then Currency.btc
    else if n == 3
    then Currency.eur
    else if n == 4
    then Currency.usd
    else Currency.rub

currency_of-code : (c : Currency) → currency_of (currency_code c) ≡ c
unfolding currency_of currency_code
currency_of-code Currency.eth = refl
currency_of-code _ = refl

pub currency_eq→eq : (a b : Currency) → currency_eq a b ≡ true → a ≡ b
currency_eq→eq a b h =
    sym (currency_of-code a)
    ∙ ap currency_of ((==_iff (currency_code a) (currency_code b)).0 h)
    ∙ currency_of-code b

pub currency_eq_refl : (c : Currency) → currency_eq c c ≡ true
unfolding currency_code
currency_eq_refl Currency.eth = refl
currency_eq_refl _ = refl
