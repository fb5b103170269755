-- ===== src/Writer/Nonces/Unique.antt =====
-- No nonce of a signer is assigned twice, whatever the cache loses and whichever batches fail.
use mathlib.Core.Path.{subst}
use firefly_transaction_mana.Prelude.{
  ℕ, suc, ◌+◌, ◌≤◌, ◌<◌, ◌≡◌, refl, Bool, Option, none, some, List, [], ◌∷◌, ◌++◌, ltb, length,
  true, false, not, if_false, if◌then◌else◌, arith, if_both,
}
use firefly_transaction_mana.Nonces.Sequence.{StoredNonce}
use firefly_transaction_mana.Nonces.Sequence.Unique.{
  Below, below_nil, below_cons, wider, after_nonce_lem,
}
use firefly_transaction_mana.Writer.Nonces.{
  NonceCacheEntry, InsertOp, Assigning, highest_stored, assign_op, and_run, nonce_after,
  internal_next, queried, entry_for, take_nonce, assign_one, and_assign, assign_each, is_expired,
  assign_nonces, InsertBatch, Signer, end_batch, cache_at, run_batch, run_batches,
}

-- The next nonce of an entry is ahead of the signer's nonces, and no more than `bound`.
abbrev pub EntryAhead : ℕ → List StoredNonce → Option NonceCacheEntry → Type 0
EntryAhead bound ts none = Unit {0}
EntryAhead bound ts (some e) = Below e.next_nonce ts × (e.next_nonce ≤ bound)

abbrev NumberAhead : ℕ → List StoredNonce → Option ℕ → Type 0
NumberAhead bound ts none = Unit {0}
NumberAhead bound ts (some n) = Below n ts × (n ≤ bound)

-- The signer's nonces decrease strictly, and the cached one is ahead of them.
pub record Ordered (bound : ℕ) (s : Signer) : Type 0 where
  pub below : Below bound s.stored
  pub ahead : EntryAhead bound s.stored s.cached

-- No negative nonce was committed, and the signer is in order.
abbrev pub OrderedIf : ℕ → Option Signer → Type 0
OrderedIf bound none = ⊥
OrderedIf bound (some s) = Ordered bound s

-- The same while a batch is worked on; nothing is assigned without an entry.
abbrev NoneAssigned : Option NonceCacheEntry → List StoredNonce → Type 0
NoneAssigned none ts = ts ≡ []
NoneAssigned (some e) ts = Unit {0}

record Assigned (bound : ℕ) (stored : List StoredNonce) (a : Assigning) : Type 0 where
  below : Below bound (a.assigned ++ stored)
  ahead : EntryAhead bound (a.assigned ++ stored) a.entry
  first : NoneAssigned a.entry a.assigned
  in_range : a.negative ≡ false

abbrev AssignedIf : ℕ → List StoredNonce → Option Assigning → Type 0
AssignedIf bound stored none = Unit {0}
AssignedIf bound stored (some a) = Assigned bound stored a

lower_first : (b : Bool) (t u : StoredNonce) → b ≡ false → some (if b then u else t) ≡ some t
lower_first true t u h = absurd cc
lower_first false t u h = refl

highest_stored-first :
    (bound : ℕ) (t : StoredNonce) (ts : List StoredNonce)
    → Below bound (t ∷ ts)
    → highest_stored (t ∷ ts) ≡ some t
highest_stored-first bound t [] h = refl
highest_stored-first bound t (u ∷ us) (below_cons h (below_cons k l)) =
    rw (highest_stored-first t.nonce u us (below_cons k l))
      (lower_first (ltb t.nonce u.nonce) t u (ground (arith, k)))

module _ (bound : ℕ) (stored : List StoredNonce) where
  queried-EntryAhead :
      (ts : List StoredNonce) (op : InsertOp) (o i : Option ℕ)
      → ((n : ℕ) → o ≡ some n → n < bound)
      → NumberAhead bound ts i
      → EntryAhead bound ts (queried op o i)
  queried-EntryAhead ts op none i h k = tt
  queried-EntryAhead ts op (some n) none h k = tt
  queried-EntryAhead ts op (some n) (some i) h k =
      if_both (λ (m : ℕ). Below m ts × (m ≤ bound)) (ltb n i) i n (λ _. k)
        (λ e. (wider i n ts (ground (arith, e)) k.0, omega (arith, h n refl)))

  highest_stored-NumberAhead :
      (ts : List StoredNonce)
      → bound < 9223372036854775808
      → Below bound ts
      → Below (nonce_after (highest_stored ts)) ts × (nonce_after (highest_stored ts) ≤ bound)
  highest_stored-NumberAhead [] l b = (below_nil, omega arith)
  highest_stored-NumberAhead (t ∷ ts) l (below_cons h k) =
      let e = after_nonce_lem t.nonce (omega (arith, h, l)) in
      rw (highest_stored-first bound t ts (below_cons h k))
        (below_cons (omega (arith, e)) k, omega (arith, e, h))

  -- The entry that is used, for a list `xs` of assigned nonces.
  entry_for-EntryAhead :
      (expired : Bool) (op : InsertOp) (c : Option NonceCacheEntry) (xs : List StoredNonce)
      → bound < 9223372036854775808
      → ((n : ℕ) → op.node_nonce ≡ some n → n < bound)
      → Below bound (xs ++ stored)
      → EntryAhead bound (xs ++ stored) c
      → NoneAssigned c xs
      → EntryAhead bound (xs ++ stored) (entry_for expired op stored c)
  unfolding entry_for
  entry_for-EntryAhead expired op none xs l h b a f =
      queried-EntryAhead (xs ++ stored) op op.node_nonce (internal_next op stored none) h (
        if_both (NumberAhead bound (xs ++ stored)) op.is_read _ _
          (λ _. rw (f) (
            highest_stored-NumberAhead stored l
              (subst (λ (ys : List StoredNonce). Below bound (ys ++ stored)) f b)))
          (λ _. tt))
  entry_for-EntryAhead expired op (some e) xs l h b a f =
      if_both (EntryAhead bound (xs ++ stored)) expired _ _
        (λ _. queried-EntryAhead (xs ++ stored) op op.node_nonce (some e.next_nonce) h a) (λ _. a)

  take_nonce-Assigned :
      (op : InsertOp) (a : Assigning) (o : Option NonceCacheEntry)
      → bound < 9223372036854775808
      → EntryAhead bound (a.assigned ++ stored) o
      → a.negative ≡ false
      → AssignedIf (bound + 1) stored (take_nonce op a o)
  take_nonce-Assigned op a none l h m = tt
  take_nonce-Assigned op a (some e) l h m =
      let k = after_nonce_lem e.next_nonce (omega (arith, h.1, l)) in
      record {
        below = below_cons (omega (arith, h.1)) h.0;
        ahead = (below_cons (omega (arith, k)) h.0, omega (arith, k, h.1));
        first = tt;
        in_range = rw (m) (ground (arith, h.1, l));
      }

wider_entry :
    (bound : ℕ) (ts : List StoredNonce) (c : Option NonceCacheEntry)
    → EntryAhead bound ts c
    → EntryAhead (bound + 1) ts c
wider_entry bound ts none h = tt
wider_entry bound ts (some e) h = (h.0, omega (arith, h.1))

wider-Assigned :
    (bound : ℕ) (stored : List StoredNonce) (a : Assigning)
    → Assigned bound stored a
    → Assigned (bound + 1) stored a
wider-Assigned bound stored a h = record {
  below = wider bound (bound + 1) (a.assigned ++ stored) (omega arith) h.below;
  ahead = wider_entry bound (a.assigned ++ stored) a.entry h.ahead;
  first = h.first;
  in_range = h.in_range;
}

assign_one-Assigned :
    (bound : ℕ) (stored : List StoredNonce) (expired : Bool) (op : InsertOp) (a : Assigning)
    → bound < 9223372036854775808
    → ((n : ℕ) → op.node_nonce ≡ some n → n < bound)
    → op.pre_assigned ≡ none
    → Assigned bound stored a
    → AssignedIf (bound + 1) stored (assign_one expired stored op a)
unfolding assign_one assign_op
assign_one-Assigned bound stored expired op a l h p k = rw (p) (
    if_both (AssignedIf (bound + 1) stored) op.sent_conflict _ _
      (λ _. wider-Assigned bound stored a k)
      (λ _.
        take_nonce-Assigned bound stored op a (entry_for expired op stored a.entry) l
          (entry_for-EntryAhead bound stored expired op a.entry a.assigned l h k.below k.ahead
            k.first)
          k.in_range))

-- The node's answers are less than `bound`, and no insertion comes with a nonce.
abbrev pub OpsBelow : ℕ → List InsertOp → Type 0
OpsBelow bound [] = Unit {0}
OpsBelow bound (op ∷ ops) =
    ((n : ℕ) → op.node_nonce ≡ some n → n < bound) × (op.pre_assigned ≡ none) × OpsBelow bound ops

later_ops : (bound : ℕ) (ops : List InsertOp) → OpsBelow bound ops → OpsBelow (bound + 1) ops
later_ops bound [] h = tt
later_ops bound (op ∷ ops) h = (λ n e. omega (arith, h.0 n e), h.1, later_ops bound ops h.2)

and_assign-Assigned :
    (bound n : ℕ) (stored : List StoredNonce) (o : Option Assigning)
    (go : Assigning → Option Assigning)
    → ((b : Assigning) → Assigned (bound + 1) stored b → AssignedIf ((bound + 1) + n) stored (go b))
    → AssignedIf (bound + 1) stored o
    → AssignedIf (bound + suc n) stored (and_assign o go)
and_assign-Assigned bound n stored none go f h = tt
and_assign-Assigned bound n stored (some b) go f h =
    subst (λ (m : ℕ). AssignedIf m stored (go b)) (add_later bound n) (f b h)
  where
    add_later : (i j : ℕ) → (i + 1) + j ≡ i + suc j
    add_later i j = omega arith

assign_each-Assigned :
    (bound : ℕ) (stored : List StoredNonce) (expired : Bool) (ops : List InsertOp) (a : Assigning)
    → bound + length ops ≤ 9223372036854775808
    → OpsBelow bound ops
    → Assigned bound stored a
    → AssignedIf (bound + length ops) stored (assign_each expired stored ops a)
unfolding assign_each
assign_each-Assigned bound stored expired [] a l h k = rw (add_zero bound) k
  where
    add_zero : (n : ℕ) → n + 0 ≡ n
    add_zero n = omega arith
assign_each-Assigned bound stored expired (op ∷ ops) a l h k =
    and_assign-Assigned bound (length ops) stored (assign_one expired stored op a)
      (λ b. assign_each expired stored ops b)
      (λ b k'.
        assign_each-Assigned (bound + 1) stored expired ops b (omega (arith, l))
          (later_ops bound ops h.2) k')
      (assign_one-Assigned bound stored expired op a (omega (arith, l)) h.0 h.1 k)

-- How many insertions the batches have.
abbrev pub ops_in : List InsertBatch → ℕ
ops_in [] = 0
ops_in (b ∷ bs) = length b.ops + ops_in bs

abbrev pub BatchesBelow : ℕ → List InsertBatch → Type 0
BatchesBelow bound [] = Unit {0}
BatchesBelow bound (b ∷ bs) = OpsBelow bound b.ops × BatchesBelow bound bs

wider_ops : (a b : ℕ) (ops : List InsertOp) → a ≤ b → OpsBelow a ops → OpsBelow b ops
wider_ops a b [] l h = tt
wider_ops a b (op ∷ ops) l h = (λ n e. omega (arith, h.0 n e, l), h.1, wider_ops a b ops l h.2)

wider_batches : (a b : ℕ) (bs : List InsertBatch) → a ≤ b → BatchesBelow a bs → BatchesBelow b bs
wider_batches a b [] l h = tt
wider_batches a b (x ∷ bs) l h = (wider_ops a b x.ops l h.0, wider_batches a b bs l h.1)

end_batch-Ordered :
    (bound more : ℕ) (committed : Bool) (stored : List StoredNonce) (o : Option Assigning)
    → Below bound stored
    → AssignedIf (bound + more) stored o
    → OrderedIf (bound + more) (end_batch committed stored o)
end_batch-Ordered bound more committed stored none b h = record {
  below = wider bound (bound + more) stored (omega arith) b;
  ahead = tt;
}
end_batch-Ordered bound more committed stored (some a) b h =
    if_both (OrderedIf (bound + more)) (not committed) _ _
      (λ _. record { below = wider bound (bound + more) stored (omega arith) b; ahead = tt })
      (λ _.
        if_false (OrderedIf (bound + more)) a.negative none _ h.in_range
          (record { below = h.below; ahead = h.ahead }))

started-Assigned :
    (bound : ℕ) (stored : List StoredNonce) (c : Option NonceCacheEntry)
    → Below bound stored
    → EntryAhead bound stored c
    → Assigned bound stored (record { entry = c; assigned = []; negative = false })
started-Assigned bound stored none b h = record {
  below = b;
  ahead = tt;
  first = refl;
  in_range = refl;
}
started-Assigned bound stored (some e) b h = record {
  below = b;
  ahead = h;
  first = tt;
  in_range = refl;
}

run_batch-Ordered :
    (timeout bound : ℕ) (b : InsertBatch) (s : Signer)
    → bound + length b.ops ≤ 9223372036854775808
    → OpsBelow bound b.ops
    → Ordered bound s
    → OrderedIf (bound + length b.ops) (run_batch timeout b s)
unfolding run_batch assign_nonces
run_batch-Ordered timeout bound b s l h o =
    end_batch-Ordered bound (length b.ops) b.committed s.stored _ o.below (
      assign_each-Assigned bound s.stored (is_expired timeout b.at (cache_at b s.cached)) b.ops
        (record { entry = cache_at b s.cached; assigned = []; negative = false }) l h
        (started-Assigned bound s.stored (cache_at b s.cached) o.below
          (if_both (EntryAhead bound s.stored) b.evicted _ _ (λ _. tt) (λ _. o.ahead))))

and_run-Ordered :
    (a b : ℕ) (o : Option Signer) (go : Signer → Option Signer)
    → ((s : Signer) → Ordered a s → OrderedIf b (go s))
    → OrderedIf a o
    → OrderedIf b (and_run o go)
and_run-Ordered a b none go f h = h
and_run-Ordered a b (some s) go f h = f s h

-- If the nonces that are stored and cached, and those that the node answers, are less than a bound,
-- that bound with the number of insertions is at most 2^63, and no insertion comes with a nonce,
-- then in the batches of a signer, whichever of them fail and whatever the cache loses, no negative
-- nonce is committed, and after them the stored nonces are distinct and in the order of their
-- assignment, and a cached one is ahead of them.
pub run_batches-Ordered :
    (timeout bound : ℕ) (bs : List InsertBatch) (s : Signer)
    → bound + ops_in bs ≤ 9223372036854775808
    → BatchesBelow bound bs
    → Ordered bound s
    → OrderedIf (bound + ops_in bs) (run_batches timeout bs s)
unfolding run_batches
run_batches-Ordered timeout bound [] s l h o = subst (λ (n : ℕ). Ordered n s) (add_zero bound) o
  where
    add_zero : (n : ℕ) → n ≡ n + 0
    add_zero n = omega arith
run_batches-Ordered timeout bound (b ∷ bs) s l h o =
    and_run-Ordered (bound + length b.ops) (bound + (length b.ops + ops_in bs))
      (run_batch timeout b s) _
      (λ s' o'.
        subst (λ (n : ℕ). OrderedIf n (run_batches timeout bs s'))
          (add_later bound (length b.ops) (ops_in bs))
          (run_batches-Ordered timeout (bound + length b.ops) bs s' (omega (arith, l))
            (wider_batches bound (bound + length b.ops) bs (omega arith) h.1) o'))
      (run_batch-Ordered timeout bound b s (omega (arith, l)) h.0 o)
  where
    add_later : (i j k : ℕ) → (i + j) + k ≡ i + (j + k)
    add_later i j k = omega arith
