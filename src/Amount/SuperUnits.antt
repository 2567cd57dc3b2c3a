-- ===== src/Amount/SuperUnits.antt =====
-- The conversion of amounts between a currency's smallest unit and the unit that users see
-- (`from_super_unit` and `to_super_unit` of src/models/amount.rs). Decimal numbers are of the
-- library `bigdecimal`: the type and its operations are a parameter.
use billing.Base.{ℕ, ◌^◌, Bool, Option}
use billing.Currency.{Currency}

-- What the code uses of `BigDecimal`; `to_u128` reads the printed number as `u128::from_str` does.
-- The library panics at a division by zero, which is left to the parameter.
pub record Decimals (Number : Type 0) : Type 0 where
  pub of_nat : ℕ → Number
  pub plus : Number → Number → Number
  pub times : Number → Number → Number
  pub divided : Number → Number → Number
  pub at_most : Number → Number → Bool
  pub with_scale : ℕ → Number → Number
  pub to_u128 : Number → Option ℕ

abbrev pub satoshis_in_btc : ℕ
satoshis_in_btc = 8

abbrev pub wei_in_eth : ℕ
wei_in_eth = 18

abbrev pub cents_in_dollar : ℕ
cents_in_dollar = 2

abbrev pub max_wei_precision : ℕ
max_wei_precision = 8

abbrev pub max_satoshis_precision : ℕ
max_satoshis_precision = 8

abbrev pub max_fiat_precision : ℕ
max_fiat_precision = 2

-- The match on the currency with which both conversions begin; every value fits `i64`.
unfoldable pub smallest_units : Currency → ℕ
smallest_units Currency.btc = 10 ^ satoshis_in_btc
smallest_units Currency.eth = 10 ^ wei_in_eth
smallest_units Currency.stq = 10 ^ wei_in_eth
smallest_units Currency.usd = 10 ^ cents_in_dollar
smallest_units Currency.eur = 10 ^ cents_in_dollar
smallest_units Currency.rub = 10 ^ cents_in_dollar

-- The match that ends `to_super_unit`.
unfoldable pub max_precision : Currency → ℕ
max_precision Currency.btc = max_satoshis_precision
max_precision Currency.eth = max_wei_precision
max_precision Currency.stq = max_wei_precision
max_precision Currency.usd = max_fiat_precision
max_precision Currency.eur = max_fiat_precision
max_precision Currency.rub = max_fiat_precision

module _ {Number : Type 0} (decimals : Decimals Number) where
  -- `Amount::from_super_unit`; no result where the `unwrap` panics.
  unfoldable pub from_super_unit : Currency → Number → Option ℕ
  unfolding smallest_units
  from_super_unit c value =
      decimals.to_u128
        (decimals.with_scale 0 (decimals.times value (decimals.of_nat (smallest_units c))))

  -- `Amount::to_super_unit`
  unfoldable pub to_super_unit : ℕ → Currency → Number
  unfolding smallest_units max_precision
  to_super_unit amount c =
      decimals.with_scale (max_precision c)
        (decimals.divided (decimals.of_nat amount) (decimals.of_nat (smallest_units c)))
