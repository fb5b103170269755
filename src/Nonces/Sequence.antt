-- ===== src/Nonces/Sequence.antt =====
-- internal/persistence/leveldb: calcNextNonceFromTxs, and the insertions of a signer that have the
-- nonce one after the other.
pub mod Unique
use firefly_transaction_mana.Prelude.{
  ℕ, ◌+◌, ◌-◌, Bool, true, false, Option, none, some, List, [], ◌∷◌, ltb, leb, if◌then◌else◌,
}
use Prim.Native.Nat.{◌%◌}
use firefly_transaction_mana.Handler.{Error}

-- A stored transaction of the signer, as far as it is read here.
pub record StoredNonce : Type 0 where
  pub nonce : ℕ
  pub created : ℕ

-- What an insertion meets: the time, the answer of the node, and whether the write succeeds.
pub record Insertion : Type 0 where
  pub now : ℕ
  pub node_nonce : Option ℕ
  pub is_written : Bool

-- A `uint64` plus one.
abbrev pub after_nonce : ℕ → ℕ
after_nonce n = (n + 1) % 18446744073709551616

-- The node's answer, unless the store is ahead of it; `none` is an error of the callback.
unfoldable pub ahead_of : Option StoredNonce → Option ℕ → Option ℕ
ahead_of last none = none
ahead_of none (some n) = some n
ahead_of (some t) (some n) = some (if leb n t.nonce then after_nonce t.nonce else n)

-- `last` is the transaction of the signer with the highest nonce, if there is one.
unfoldable pub calc_next_nonce : ℕ → Option StoredNonce → Insertion → Option ℕ
unfolding ahead_of
calc_next_nonce timeout none x = ahead_of none x.node_nonce
calc_next_nonce timeout (some t) x =
    if ltb (x.now - t.created) timeout
    then some (after_nonce t.nonce)
    else ahead_of (some t) x.node_nonce

-- The signer's transactions, that with the highest nonce first.
abbrev pub highest : List StoredNonce → Option StoredNonce
highest [] = none
highest (t ∷ ts) = some t

-- `int64(nonce)`, where it is the same number; `none` is a number of 2^63 or more, which becomes
-- negative.
abbrev pub as_int64 : ℕ → Option ℕ
as_int64 n = if ltb n 9223372036854775808 then some n else none

abbrev pub stored_as : ℕ → List StoredNonce → Option ℕ → Option (List StoredNonce)
stored_as now ts none = none
stored_as now ts (some n) = some (record { nonce = n; created = now } ∷ ts)

-- `none` where a negative nonce is stored: the model of the index ends there.
abbrev pub store_nonce : Insertion → Option ℕ → List StoredNonce → Option (List StoredNonce)
store_nonce x none ts = some ts
store_nonce x (some n) ts = if x.is_written then stored_as x.now ts (as_int64 n) else some ts

unfoldable pub insert_with_next_nonce : ℕ → Insertion → List StoredNonce → Option (List StoredNonce)
unfolding calc_next_nonce
insert_with_next_nonce timeout x ts = store_nonce x (calc_next_nonce timeout (highest ts) x) ts

abbrev pub and_insert :
    Option (List StoredNonce)
    → (List StoredNonce → Option (List StoredNonce))
    → Option (List StoredNonce)
and_insert none go = none
and_insert (some ts) go = go ts

unfoldable pub insert_all : ℕ → List Insertion → List StoredNonce → Option (List StoredNonce)
unfolding insert_with_next_nonce
insert_all timeout [] ts = some ts
insert_all timeout (x ∷ xs) ts =
    and_insert (insert_with_next_nonce timeout x ts) (λ ts'. insert_all timeout xs ts')
