-- ===== src/Writer/Nonces.antt =====
-- internal/persistence/postgres/transaction_writer.go: assignNonces, and the batches of one signer,
-- which all go to one worker.
pub mod Unique
use firefly_transaction_mana.Prelude.{
  ℕ, ◌-◌, Bool, true, false, not, ◌||◌, Option, none, some, List, [], ◌∷◌, ◌++◌, ◌&&◌, ltb, is_some,
  if◌then◌else◌,
}
use firefly_transaction_mana.Nonces.Sequence.{StoredNonce, after_nonce}

pub record NonceCacheEntry : Type 0 where
  pub cached_time : ℕ
  pub next_nonce : ℕ

-- An insertion of the signer: the nonce that it comes with, if it has one; and `sent_conflict` is
-- one that the check of its ID has excluded. The others are what is met if it has to ask: the time, the answer of the
-- node, and whether the database can be read.
pub record InsertOp : Type 0 where
  pub pre_assigned : Option ℕ
  pub sent_conflict : Bool
  pub now : ℕ
  pub node_nonce : Option ℕ
  pub is_read : Bool

-- The entry of the signer in the cache, the nonces of the insertions so far, the last one first, and
-- whether one of them has become negative by `int64(cacheEntry.nextNonce)`.
pub record Assigning : Type 0 where
  pub entry : Option NonceCacheEntry
  pub assigned : List StoredNonce
  pub negative : Bool

-- The first transaction of the query that sorts by "-nonce".
abbrev pub higher : StoredNonce → Option StoredNonce → Option StoredNonce
higher t none = some t
higher t (some u) = some (if ltb t.nonce u.nonce then u else t)

abbrev pub highest_stored : List StoredNonce → Option StoredNonce
highest_stored [] = none
highest_stored (t ∷ ts) = higher t (highest_stored ts)

abbrev pub nonce_after : Option StoredNonce → ℕ
nonce_after none = 0
nonce_after (some t) = after_nonce t.nonce

-- The next nonce as the manager knows it, from an expired entry or from the database.
abbrev pub internal_next : InsertOp → List StoredNonce → Option NonceCacheEntry → Option ℕ
internal_next op stored (some e) = some e.next_nonce
internal_next op stored none =
    if op.is_read then some (nonce_after (highest_stored stored)) else none

abbrev pub queried : InsertOp → Option ℕ → Option ℕ → Option NonceCacheEntry
queried op none i = none
queried op (some n) none = none
queried op (some n) (some i) =
    some (record { cached_time = op.now; next_nonce = if ltb n i then i else n })

-- The entry from which the nonce is taken.
unfoldable pub entry_for :
    Bool → InsertOp → List StoredNonce → Option NonceCacheEntry → Option NonceCacheEntry
entry_for expired op stored none = queried op op.node_nonce (internal_next op stored none)
entry_for expired op stored (some e) =
    if expired then queried op op.node_nonce (internal_next op stored (some e)) else some e

abbrev pub take_nonce : InsertOp → Assigning → Option NonceCacheEntry → Option Assigning
take_nonce op a none = none
take_nonce op a (some e) = some (record {
  entry = some (record e { next_nonce = after_nonce e.next_nonce });
  assigned = record { nonce = e.next_nonce; created = op.now } ∷ a.assigned;
  negative = a.negative || not (ltb e.next_nonce 9223372036854775808);
})

abbrev pub inserted_as : InsertOp → ℕ → Assigning → Assigning
inserted_as op n a = record a { assigned = record { nonce = n; created = op.now } ∷ a.assigned }

unfoldable pub assign_op :
    Option ℕ → Bool → List StoredNonce → InsertOp → Assigning → Option Assigning
unfolding entry_for
assign_op (some n) expired stored op a =
    if op.sent_conflict then some a else some (inserted_as op n a)
assign_op none expired stored op a =
    if op.sent_conflict then some a else take_nonce op a (entry_for expired op stored a.entry)

-- A nonce that an insertion comes with is left as it is.
unfoldable pub assign_one : Bool → List StoredNonce → InsertOp → Assigning → Option Assigning
unfolding assign_op
assign_one expired stored op a = assign_op op.pre_assigned expired stored op a

abbrev pub and_assign : Option Assigning → (Assigning → Option Assigning) → Option Assigning
and_assign none go = none
and_assign (some a) go = go a

unfoldable pub assign_each : Bool → List StoredNonce → List InsertOp → Assigning → Option Assigning
unfolding assign_one
assign_each expired stored [] a = some a
assign_each expired stored (op ∷ ops) a =
    and_assign (assign_one expired stored op a) (λ b. assign_each expired stored ops b)

abbrev pub is_expired : ℕ → ℕ → Option NonceCacheEntry → Bool
is_expired timeout at none = false
is_expired timeout at (some e) = ltb timeout (at - e.cached_time)

unfoldable pub assign_nonces :
    ℕ → ℕ → List StoredNonce → List InsertOp → Option NonceCacheEntry → Option Assigning
unfolding assign_each
assign_nonces timeout at stored ops cached =
    assign_each (is_expired timeout at cached) stored ops
      (record { entry = cached; assigned = []; negative = false })

-- A batch: its time, its insertions of the signer, whether the cache has lost the entry before it,
-- and whether the database commits all of the batch, which it does not where its index of nonces
-- refuses one that is there already.
pub record InsertBatch : Type 0 where
  pub at : ℕ
  pub ops : List InsertOp
  pub evicted : Bool
  pub committed : Bool

pub record Signer : Type 0 where
  pub cached : Option NonceCacheEntry
  pub stored : List StoredNonce

-- An error clears the entry. `none` is a commit of a negative nonce: the model ends there.
abbrev pub end_batch : Bool → List StoredNonce → Option Assigning → Option Signer
end_batch committed stored none = some (record { cached = none; stored = stored })
end_batch committed stored (some a) =
    if not committed
    then some (record { cached = none; stored = stored })
    else if a.negative
    then none
    else some (record { cached = a.entry; stored = a.assigned ++ stored })

abbrev pub cache_at : InsertBatch → Option NonceCacheEntry → Option NonceCacheEntry
cache_at b c = if b.evicted then none else c

-- `runBatch`, as far as it is about the nonces of the signer.
unfoldable pub run_batch : ℕ → InsertBatch → Signer → Option Signer
unfolding assign_nonces
run_batch timeout b s =
    end_batch b.committed s.stored (assign_nonces timeout b.at s.stored b.ops (cache_at b s.cached))

abbrev pub and_run : Option Signer → (Signer → Option Signer) → Option Signer
and_run none go = none
and_run (some s) go = go s

unfoldable pub run_batches : ℕ → List InsertBatch → Signer → Option Signer
unfolding run_batch
run_batches timeout [] s = some s
run_batches timeout (b ∷ bs) s = and_run (run_batch timeout b s) (λ s'. run_batches timeout bs s')
