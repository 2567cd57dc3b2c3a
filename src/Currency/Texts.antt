-- ===== src/Currency/Texts.antt =====
-- What the text forms of the currencies accept (src/models/currency.rs).
use billing.Base.{
  ◌≡◌, refl, ◌↔◌, ◌⊎◌, inl, inr, Bytes, codes, bytes_eq_iff, to_ascii_lowercase,
  to_ascii_lowercase_idem, true, false, none, some, ok, arith,
}
use billing.Currency.{
  Currency, TureCurrency, crypto, classify, is_fiat, from_ture, try_from_currency, display, to_sql,
  from_str, match_sql, from_sql,
}

from_sql-to_sql : (c : Currency) → from_sql (some (to_sql c)) ≡ ok c
unfolding from_sql to_sql
from_sql-to_sql Currency.eth = refl
from_sql-to_sql _ = refl

to_sql_of_match : (v : Bytes) (c : Currency) → match_sql v ≡ ok c → v ≡ to_sql c
unfolding match_sql to_sql
to_sql_of_match v c h = ground (
  arith,
  bytes_eq_iff v (codes "eth"),
  bytes_eq_iff v (codes "stq"),
  bytes_eq_iff v (codes "btc"),
  bytes_eq_iff v (codes "eur"),
  bytes_eq_iff v (codes "usd"),
  bytes_eq_iff v (codes "rub"),
)

-- A column decodes to a currency exactly when it holds the bytes that `to_sql` writes for it; so
-- no other spelling, upper case included, is read back.
pub from_sql_iff : (v : Bytes) (c : Currency) → (from_sql (some v) ≡ ok c) ↔ (v ≡ to_sql c)
unfolding from_sql
from_sql_iff v c = (to_sql_of_match v c, λ e. rw e (from_sql-to_sql c))

-- A text that equals a currency's displayed form up to ASCII case parses to that currency, and so
-- does its lowered form.
pub from_str-display :
    (c : Currency) (s : Bytes)
    → to_ascii_lowercase s ≡ display c
    → (from_str s ≡ ok c) × (from_str (to_ascii_lowercase s) ≡ ok c)
unfolding from_str display
from_str-display Currency.eth s e = (rw e, rw (to_ascii_lowercase_idem s, e))
from_str-display _ s e = (rw e, rw (to_ascii_lowercase_idem s, e))

-- A currency is fiat and the gateway has none for it, or it is not fiat, and the gateway's
-- currency is the one that `classify` names and leads back to it.
pub try_from_currency-classify :
    (c : Currency)
    → ((is_fiat c ≡ true) × (try_from_currency c ≡ none))
      ⊎ ((t : TureCurrency) × (is_fiat c ≡ false)
          × (try_from_currency c ≡ some t)
          × (classify c ≡ crypto t)
          × (from_ture t ≡ c))
unfolding is_fiat try_from_currency from_ture
try_from_currency-classify Currency.eth = inr (TureCurrency.eth, refl, refl, refl, refl)
try_from_currency-classify Currency.stq = inr (TureCurrency.stq, refl, refl, refl, refl)
try_from_currency-classify Currency.btc = inr (TureCurrency.btc, refl, refl, refl, refl)
try_from_currency-classify _ = inl (refl, refl)
