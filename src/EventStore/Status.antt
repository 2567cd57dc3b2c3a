-- ===== src/EventStore/Status.antt =====
-- The status column: what is written is read back, and no two statuses share a text.
use billing.Base.{◌≡◌, refl, sym, ap, ◌∙◌, Bytes, codes, bytes_eq_iff, true, some, arith}
use billing.EventStore.Entry.{EventStatus, RawEventEntry, to_string, from_str}
use billing.EventStore.{has_status}

pub from_str-to_string : (s : EventStatus) → from_str (to_string s) ≡ some s
unfolding from_str to_string
from_str-to_string EventStatus.pending = refl
from_str-to_string _ = refl

pub to_string-injective : (a b : EventStatus) → to_string a ≡ to_string b → a ≡ b
to_string-injective a b e =
    let h : some a ≡ some b = sym (from_str-to_string a) ∙ ap from_str e ∙ from_str-to_string b in
    cc

pub to_string_of_from_str : (v : Bytes) (s : EventStatus) → from_str v ≡ some s → v ≡ to_string s
unfolding from_str to_string
to_string_of_from_str v s h = ground (
  arith,
  bytes_eq_iff v (codes "pending"),
  bytes_eq_iff v (codes "in_progress"),
  bytes_eq_iff v (codes "completed"),
  bytes_eq_iff v (codes "failed"),
)

pub has_status→eq :
    {Value : Type 0} (s : EventStatus) (r : RawEventEntry Value)
    → has_status s r ≡ true
    → r.status ≡ to_string s
has_status→eq s r h = (bytes_eq_iff r.status (to_string s)).0 h
