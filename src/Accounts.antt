-- ===== src/Accounts.antt =====
-- Accounts of the payments gateway: the rows (src/models/account.rs) and the repository over the
-- table `accounts` (src/repos/accounts.rs), with the invoices that name them. `RawAccount` and
-- `Account` have the same fields. Every user is in scope, so that access is by resource and action.
pub mod Service
pub mod Creation
pub mod Pools
pub mod System
pub mod Tests
use billing.Base.{
  ℕ, ◌+◌, Bool, true, false, ◌&&◌, not, Option, none, some, List, [], ◌∷◌, ◌++◌, map, any, find,
  keep_if, ◌==◌, if◌then◌else◌, Result, ok, err, RepoError, ◌>>◌,
}
use billing.Currency.{TureCurrency, currency_code, from_ture}
use billing.Acl.{Acl, Resource, Scope, read, write, check}
use billing.Invoices.{RawInvoice, has_account, unlink}

-- `Account`
pub record Account : Type 0 where
  pub id : ℕ
  pub currency : TureCurrency
  pub is_pooled : Bool
  pub created_at : ℕ
  pub wallet_address : ℕ

-- `NewAccount`
pub record NewAccount : Type 0 where
  pub id : ℕ
  pub currency : TureCurrency
  pub is_pooled : Bool
  pub wallet_address : ℕ

-- The accounts and the invoices.
pub record Tables (OrderState : Type 0) : Type 0 where
  pub accounts : List Account
  pub invoices : List (RawInvoice OrderState)

-- The derived `PartialEq` of `TureCurrency`.
unfoldable pub ture_eq : TureCurrency → TureCurrency → Bool
ture_eq TureCurrency.eth TureCurrency.eth = true
ture_eq TureCurrency.stq TureCurrency.stq = true
ture_eq TureCurrency.btc TureCurrency.btc = true
ture_eq _ _ = false

abbrev pub account_has_id : ℕ → Account → Bool
account_has_id i a = a.id == i

-- The accounts that `count` counts for a currency.
unfoldable pub counts : TureCurrency → Bool → Account → Bool
unfolding ture_eq
counts c pooled a = ture_eq a.currency c && (if pooled then a.is_pooled else not a.is_pooled)

-- The count of a currency: the map has an entry for each of the three, and zero for a currency
-- without accounts.
unfoldable pub count_of : TureCurrency → Bool → List Account → ℕ
unfolding counts
count_of c pooled [] = 0
count_of c pooled (a ∷ rows) = (if counts c pooled a then 1 else 0) + count_of c pooled rows

-- `TureCurrency::into_enum_iter`; the order of a map's entries is not specified.
abbrev pub ture_currencies : List TureCurrency
ture_currencies = TureCurrency.eth ∷ TureCurrency.stq ∷ TureCurrency.btc ∷ []

-- `AccountCount`
pub record AccountCount : Type 0 where
  pub pooled : List (TureCurrency × ℕ)
  pub unpooled : List (TureCurrency × ℕ)

-- The filter of `get_free_account` and the left join with invoices that finds none.
unfoldable pub is_free :
    {OrderState : Type 0} → TureCurrency → List (RawInvoice OrderState) → Account → Bool
unfolding ture_eq has_account
is_free c invoices a = ture_eq a.currency c && a.is_pooled && not (any (has_account a.id) invoices)

-- The row that an insert adds.
unfoldable pub new_account : ℕ → NewAccount → Account
new_account now n = record {
  id = n.id;
  currency = n.currency;
  is_pooled = n.is_pooled;
  created_at = now;
  wallet_address = n.wallet_address;
}

-- `is_in_scope`
unfoldable pub is_in_scope : ℕ → Scope → Option Account → Bool
is_in_scope user scope obj = true

module _ {OrderState : Type 0} where
  -- The foreign key of the invoices, `ON DELETE SET NULL`.
  unfoldable pub unlink_all : ℕ → List (RawInvoice OrderState) → List (RawInvoice OrderState)
  unfolding has_account unlink
  unlink_all i invoices = map (λ x. if has_account i x then unlink x else x) invoices

module _ {OrderState : Type 0} (acl : Acl Account) where
  -- `count`
  unfoldable pub count : Tables OrderState → Result RepoError AccountCount
  unfolding count_of
  count t =
      check acl Resource.account read none
      >> ok (record {
        pooled = map (λ c. (c, count_of c true t.accounts)) ture_currencies;
        unpooled = map (λ c. (c, count_of c false t.accounts)) ture_currencies;
      })

  -- `get`
  unfoldable pub get : ℕ → Tables OrderState → Result RepoError (Option Account)
  get i t = check acl Resource.account read none >> ok (find (account_has_id i) t.accounts)

  -- `get_by_wallet_address`
  unfoldable pub get_by_wallet_address : ℕ → Tables OrderState → Result RepoError (Option Account)
  get_by_wallet_address address t =
      check acl Resource.account read none
      >> ok (find (λ a. a.wallet_address == address) t.accounts)

  -- `get_many`
  unfoldable pub get_many : List ℕ → Tables OrderState → Result RepoError (List Account)
  get_many ids t =
      check acl Resource.account read none
      >> ok (keep_if (λ a. any (λ i. a.id == i) ids) t.accounts)

  -- `get_free_account`
  unfoldable pub get_free_account :
      TureCurrency → Tables OrderState → Result RepoError (Option Account)
  unfolding is_free
  get_free_account c t =
      check acl Resource.account read none >> ok (find (is_free c t.invoices) t.accounts)

  -- `create`
  unfoldable pub create :
      (now : ℕ) → NewAccount → Tables OrderState → Result RepoError Account × Tables OrderState
  unfolding new_account
  create now n t = elim (check acl Resource.account write none) [
    | err e ↦ (err e, t)
    | ok _ ↦
        if any (account_has_id n.id) t.accounts
        then (err RepoError.constraints, t)
        else (ok (new_account now n), record t { accounts = t.accounts ++ new_account now n ∷ [] })
  ]

  -- `delete`
  unfoldable pub delete :
      ℕ → Tables OrderState → Result RepoError (Option Account) × Tables OrderState
  unfolding unlink_all
  delete i t = elim (check acl Resource.account write none) [
    | err e ↦ (err e, t)
    | ok _ ↦ (
      ok (find (account_has_id i) t.accounts),
      record {
        accounts = keep_if (λ a. not (account_has_id i a)) t.accounts;
        invoices = unlink_all i t.invoices;
      },
    )
  ]
