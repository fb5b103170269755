-- ===== src/Nonces/Sequence/Unique.antt =====
-- No nonce is given to two transactions.
use mathlib.Core.Path.{subst}
use firefly_transaction_mana.Prelude.{
  ℕ, suc, ◌+◌, ◌-◌, ◌≤◌, ◌<◌, ◌≡◌, refl, Option, none, some, List, [], ◌∷◌, ltb, leb, length, arith,
  if_both,
}
use firefly_transaction_mana.Nonces.Sequence.{
  StoredNonce, Insertion, after_nonce, ahead_of, calc_next_nonce, highest, store_nonce, stored_as,
  and_insert, insert_with_next_nonce, insert_all,
}

-- The nonces decrease strictly, and all of them are less than `bound`: the list is in the order of
-- the index of nonces, and no nonce stands twice.
pub data Below : ℕ → List StoredNonce → Type 0 where
  below_nil : {bound : ℕ} → Below bound []
  below_cons :
      {bound : ℕ} {t : StoredNonce} {ts : List StoredNonce}
      → t.nonce < bound
      → Below t.nonce ts
      → Below bound (t ∷ ts)

-- The node's nonces are less than `bound`.
abbrev pub AnswersBelow : ℕ → List Insertion → Type 0
AnswersBelow bound [] = Unit {0}
AnswersBelow bound (x ∷ xs) = ((n : ℕ) → x.node_nonce ≡ some n → n < bound) × AnswersBelow bound xs

pub after_nonce_lem : (n : ℕ) → n + 1 < 18446744073709551616 → after_nonce n ≡ n + 1
after_nonce_lem n h = omega (arith, h)

pub wider : (a b : ℕ) (ts : List StoredNonce) → a ≤ b → Below a ts → Below b ts
wider a b [] l h = below_nil
wider a b (t ∷ ts) l (below_cons h k) = below_cons (omega (arith, h, l)) k

-- A nonce that is assigned is ahead of the signer's stored ones, and no more than `bound`.
NextOf : ℕ → List StoredNonce → Option ℕ → Type 0
NextOf bound ts none = Unit {0}
NextOf bound ts (some n) = Below n ts × (n ≤ bound)

ahead_of-NextOf :
    (bound : ℕ) (t : StoredNonce) (ts : List StoredNonce) (o : Option ℕ)
    → bound < 18446744073709551615
    → Below bound (t ∷ ts)
    → ((n : ℕ) → o ≡ some n → n < bound)
    → NextOf bound (t ∷ ts) (ahead_of (some t) o)
unfolding ahead_of NextOf
ahead_of-NextOf bound t ts none l b a = tt
ahead_of-NextOf bound t ts (some n) l (below_cons h k) a =
    let e = after_nonce_lem t.nonce (omega (arith, h, l)) in
    if_both (λ (m : ℕ). Below m (t ∷ ts) × (m ≤ bound)) (leb n t.nonce) (after_nonce t.nonce) n
      (λ f. (below_cons (omega (arith, e)) k, omega (arith, e, h)))
      (λ f. (below_cons (ground (arith, f)) k, omega (arith, a n refl)))

from_node :
    (bound : ℕ) (o : Option ℕ)
    → ((n : ℕ) → o ≡ some n → n < bound)
    → NextOf bound [] (ahead_of none o)
unfolding ahead_of NextOf
from_node bound none a = tt
from_node bound (some n) a = (below_nil, omega (arith, a n refl))

one_more :
    (bound : ℕ) (t : StoredNonce) (ts : List StoredNonce)
    → bound < 18446744073709551615
    → Below bound (t ∷ ts)
    → NextOf bound (t ∷ ts) (some (after_nonce t.nonce))
unfolding NextOf
one_more bound t ts l (below_cons h k) =
    let e = after_nonce_lem t.nonce (omega (arith, h, l)) in
    (below_cons (omega (arith, e)) k, omega (arith, e, h))

calc_next_nonce-NextOf :
    (timeout bound : ℕ) (ts : List StoredNonce) (x : Insertion)
    → bound < 18446744073709551615
    → Below bound ts
    → ((n : ℕ) → x.node_nonce ≡ some n → n < bound)
    → NextOf bound ts (calc_next_nonce timeout (highest ts) x)
unfolding calc_next_nonce
calc_next_nonce-NextOf timeout bound [] x l b a = from_node bound x.node_nonce a
calc_next_nonce-NextOf timeout bound (t ∷ ts) x l b a =
    if_both (NextOf bound (t ∷ ts)) (ltb (x.now - t.created) timeout) _ _
      (λ _. one_more bound t ts l b) (λ _. ahead_of-NextOf bound t ts x.node_nonce l b a)

-- No nonce was stored negative, and those that are stored are below `bound`.
abbrev pub BelowIf : ℕ → Option (List StoredNonce) → Type 0
BelowIf bound none = ⊥
BelowIf bound (some ts) = Below bound ts

store_nonce-Below :
    (bound : ℕ) (ts : List StoredNonce) (x : Insertion) (o : Option ℕ)
    → bound < 9223372036854775808
    → Below bound ts
    → NextOf bound ts o
    → BelowIf (suc bound) (store_nonce x o ts)
unfolding NextOf
store_nonce-Below bound ts x none l b h = wider bound (suc bound) ts (omega arith) b
store_nonce-Below bound ts x (some n) l b h =
    if_both (BelowIf (suc bound)) x.is_written _ _
      (λ _.
        if_both (λ (o : Option ℕ). BelowIf (suc bound) (stored_as x.now ts o))
          (ltb n 9223372036854775808) (some n) none (λ _. below_cons (omega (arith, h.1)) h.0)
          (λ e. ground (arith, e, h.1, l)))
      (λ _. wider bound (suc bound) ts (omega arith) b)

and_insert-Below :
    (a b : ℕ) (o : Option (List StoredNonce)) (go : List StoredNonce → Option (List StoredNonce))
    → ((ts : List StoredNonce) → Below a ts → BelowIf b (go ts))
    → BelowIf a o
    → BelowIf b (and_insert o go)
and_insert-Below a b none go f h = h
and_insert-Below a b (some ts) go f h = f ts h

answers_wider : (a b : ℕ) (xs : List Insertion) → a ≤ b → AnswersBelow a xs → AnswersBelow b xs
answers_wider a b [] l h = tt
answers_wider a b (x ∷ xs) l h = (λ n e. omega (arith, l, h.0 n e), answers_wider a b xs l h.1)

-- If the nonces that are stored, and those that the node answers, are less than a bound, and that
-- bound with the number of insertions is at most 2^63, then in the insertions, whatever the times
-- and the failures, no nonce is stored negative, and after them the signer's nonces are distinct
-- and in the order of their assignment.
pub insert_all-Below :
    (timeout bound : ℕ) (xs : List Insertion) (ts : List StoredNonce)
    → bound + length xs ≤ 9223372036854775808
    → Below bound ts
    → AnswersBelow bound xs
    → BelowIf (bound + length xs) (insert_all timeout xs ts)
unfolding insert_all insert_with_next_nonce
insert_all-Below timeout bound [] ts l b a = wider bound (bound + 0) ts (omega arith) b
insert_all-Below timeout bound (x ∷ xs) ts l b a =
    and_insert-Below (suc bound) (bound + suc (length xs)) (insert_with_next_nonce timeout x ts) _
      (λ ts' h.
        subst (λ (n : ℕ). BelowIf n (insert_all timeout xs ts')) (add_later bound (length xs))
          (insert_all-Below timeout (suc bound) xs ts' (omega (arith, l)) h
            (answers_wider bound (suc bound) xs (omega arith) a.1)))
      (store_nonce-Below bound ts x _ (omega (arith, l)) b
        (calc_next_nonce-NextOf timeout bound ts x (omega (arith, l)) b a.0))
  where
    add_later : (i j : ℕ) → suc i + j ≡ i + suc j
    add_later i j = omega arith
