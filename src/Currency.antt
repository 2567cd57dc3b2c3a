-- ===== src/Currency.antt =====
-- The currencies and their text forms (src/models/currency.rs).
pub mod Texts
pub mod Equality
pub mod Tests
use billing.Base.{
  ℕ, ◌==◌, Bytes, codes, bytes_eq, to_ascii_lowercase, Bool, true, false, Option, none, some,
  Result, ok, err, if◌then◌else◌,
}

-- `Currency`
pub data Currency : Type 0 where
  eth stq btc eur usd rub : Currency

-- `TureCurrency`, the cryptocurrencies that the payments gateway serves.
pub data TureCurrency : Type 0 where
  eth stq btc : TureCurrency

-- `FiatCurrency`
pub data FiatCurrency : Type 0 where
  eur usd rub : FiatCurrency

-- `CurrencyChoice`
pub data CurrencyChoice : Type 0 where
  crypto : TureCurrency → CurrencyChoice
  fiat : FiatCurrency → CurrencyChoice

-- `ParseCurrencyError`
pub data ParseError : Type 0 where
  parse_error : ParseError

-- What a column can hold that is no currency: another text, or null.
pub data ColumnError : Type 0 where
  unrecognized : Bytes → ColumnError
  unexpected_null : ColumnError

-- `Currency::classify`
unfoldable pub classify : Currency → CurrencyChoice
classify Currency.eth = crypto TureCurrency.eth
classify Currency.stq = crypto TureCurrency.stq
classify Currency.btc = crypto TureCurrency.btc
classify Currency.eur = fiat FiatCurrency.eur
classify Currency.usd = fiat FiatCurrency.usd
classify Currency.rub = fiat FiatCurrency.rub

-- `Currency::is_fiat`
unfoldable pub is_fiat : Currency → Bool
unfolding classify
is_fiat c = elim (classify c) [ crypto _ ↦ false | fiat _ ↦ true ]

-- `impl From<TureCurrency> for Currency`
unfoldable pub from_ture : TureCurrency → Currency
from_ture TureCurrency.eth = Currency.eth
from_ture TureCurrency.stq = Currency.stq
from_ture TureCurrency.btc = Currency.btc

-- `impl From<FiatCurrency> for Currency`
unfoldable pub from_fiat : FiatCurrency → Currency
from_fiat FiatCurrency.usd = Currency.usd
from_fiat FiatCurrency.eur = Currency.eur
from_fiat FiatCurrency.rub = Currency.rub

-- `TureCurrency::try_from_currency`; the error carries nothing.
unfoldable pub try_from_currency : Currency → Option TureCurrency
try_from_currency Currency.eth = some TureCurrency.eth
try_from_currency Currency.stq = some TureCurrency.stq
try_from_currency Currency.btc = some TureCurrency.btc
try_from_currency Currency.usd = none
try_from_currency Currency.eur = none
try_from_currency Currency.rub = none

-- `impl Display for Currency`, and `ToSql`, which writes the same bytes.
unfoldable pub display : Currency → Bytes
display Currency.eth = codes "eth"
display Currency.stq = codes "stq"
display Currency.btc = codes "btc"
display Currency.eur = codes "eur"
display Currency.usd = codes "usd"
display Currency.rub = codes "rub"

unfoldable pub to_sql : Currency → Bytes
to_sql Currency.eth = codes "eth"
to_sql Currency.stq = codes "stq"
to_sql Currency.btc = codes "btc"
to_sql Currency.eur = codes "eur"
to_sql Currency.usd = codes "usd"
to_sql Currency.rub = codes "rub"

-- `FromStr::from_str` lowers the text before it compares.
match_str : Bytes → Result ParseError Currency
match_str s =
    if bytes_eq s (codes "eth")
    then ok Currency.eth
    else if bytes_eq s (codes "stq")
    then ok Currency.stq
    else if bytes_eq s (codes "btc")
    then ok Currency.btc
    else if bytes_eq s (codes "eur")
    then ok Currency.eur
    else if bytes_eq s (codes "usd")
    then ok Currency.usd
    else if bytes_eq s (codes "rub")
    then ok Currency.rub
    else err parse_error

unfoldable pub from_str : Bytes → Result ParseError Currency
unfolding match_str
from_str s = match_str (to_ascii_lowercase s)

-- `FromSql::from_sql` compares the column's bytes as they are.
match_sql : Bytes → Result ColumnError Currency
match_sql v =
    if bytes_eq v (codes "eth")
    then ok Currency.eth
    else if bytes_eq v (codes "stq")
    then ok Currency.stq
    else if bytes_eq v (codes "btc")
    then ok Currency.btc
    else if bytes_eq v (codes "eur")
    then ok Currency.eur
    else if bytes_eq v (codes "usd")
    then ok Currency.usd
    else if bytes_eq v (codes "rub")
    then ok Currency.rub
    else err (unrecognized v)

unfoldable pub from_sql : Option Bytes → Result ColumnError Currency
unfolding match_sql
from_sql none = err unexpected_null
from_sql (some v) = match_sql v

-- The derived `PartialEq` of `Currency` and `TureCurrency`.
unfoldable pub currency_code : Currency → ℕ
currency_code Currency.eth = 0
currency_code Currency.stq = 1
currency_code Currency.btc = 2
currency_code Currency.eur = 3
currency_code Currency.usd = 4
currency_code Currency.rub = 5

abbrev pub currency_eq : Currency → Currency → Bool
currency_eq a b = currency_code a == currency_code b
