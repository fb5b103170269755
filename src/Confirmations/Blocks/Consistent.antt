-- ===== src/Confirmations/Blocks/Consistent.antt =====
-- The view of the chain stays consistent, whatever the connector answers.
use firefly_transaction_mana.Prelude.{
  ℕ, suc, ◌≤◌, ◌<◌, String, ◌≡◌, refl, Bool, true, false, Option, none, some, List, [], ◌∷◌, ◌⊎◌,
  inl, inr, Bool-cases, arith, if◌then◌else◌,
}
use firefly_transaction_mana.Confirmations.{BlockInfo}
use firefly_transaction_mana.Confirmations.Blocks.{
  Got, got, failed, BlockState, find_block, is_past_head, fetched, Connector, get_block,
  get_uncached, get_cached, get_by_number,
}

-- What was seen stays: a block that is kept, and a number that is past the head.
pub record Extends (a b : BlockState) : Type 0 where
  pub keeps :
      (n : ℕ) (x : BlockInfo) → find_block n a.blocks ≡ some x → find_block n b.blocks ≡ some x
  pub past : 0 < a.lowest_nil → (0 < b.lowest_nil) × (b.lowest_nil ≤ a.lowest_nil)

pub Extends-refl : (a : BlockState) → Extends a a
Extends-refl a = record { keeps = λ n x e. e; past = λ h. (h, omega arith) }

pub Extends-trans : (a b d : BlockState) → Extends a b → Extends b d → Extends a d
Extends-trans a b d h k = record {
  keeps = λ n x e. k.keeps n x (h.keeps n x e);
  past = λ l. let (p, q) = h.past l in let (r, s) = k.past p in (r, omega arith);
}

module _ (n : ℕ) (pos : 0 < n) where
  fetched-Extends :
      (g : Got) (bs : BlockState) → find_block n bs.blocks ≡ none → Extends bs (fetched n g bs).1
  unfolding fetched find_block
  fetched-Extends (failed e) bs h = Extends-refl bs
  fetched-Extends (got none) bs h = record {
    keeps = λ m x e. ground (arith, e);
    past = λ l. ground (arith, l);
  }
  fetched-Extends (got (some b)) bs h = record {
    keeps = λ m x e. ground (arith, e);
    past = λ l. (l, omega arith);
  }

  module _ (ask : Connector) (parent : String) where
    get_cached-Extends :
        (o : Option BlockInfo) (bs : BlockState)
        → find_block n bs.blocks ≡ o
        → Extends bs (get_cached ask n parent o bs).1
    unfolding get_cached get_uncached
    get_cached-Extends none bs h =
        let k =
          fetched-Extends (get_block (ask bs.calls n parent)) (record bs { calls = suc bs.calls })
            h in
        record { keeps = k.keeps; past = k.past }
    get_cached-Extends (some b) bs h = Extends-refl bs

    pub get_by_number-Extends : (bs : BlockState) → Extends bs (get_by_number ask n parent bs).1
    unfolding get_by_number
    get_by_number-Extends bs = elim (Bool-cases (is_past_head n bs)) [
      | inl e ↦ rw e (Extends-refl bs)
      | inr e ↦ rw e (get_cached-Extends (find_block n bs.blocks) bs refl)
    ]

-- The view after a sequence of queries, each with its number and the parent hash it expects.
unfoldable pub after_queries : Connector → List (ℕ × String) → BlockState → BlockState
after_queries ask [] bs = bs
after_queries ask ((n, parent) ∷ qs) bs = after_queries ask qs (get_by_number ask n parent bs).1

-- Block 0 is never asked for: it follows no block.
abbrev pub AllPositive : List (ℕ × String) → Type 0
AllPositive [] = Unit {0}
AllPositive ((n, parent) ∷ qs) = (0 < n) × AllPositive qs

pub after_queries-Extends :
    (ask : Connector) (qs : List (ℕ × String)) (bs : BlockState)
    → AllPositive qs
    → Extends bs (after_queries ask qs bs)
unfolding after_queries
after_queries-Extends ask [] bs h = Extends-refl bs
after_queries-Extends ask ((n, parent) ∷ qs) bs h =
    Extends-trans bs (get_by_number ask n parent bs).1 _ (get_by_number-Extends n h.0 ask parent bs)
      (after_queries-Extends ask qs (get_by_number ask n parent bs).1 h.1)

module _ (ask : Connector) where
  -- What an answer leaves in the view.
  remembered-none :
      (n : ℕ) (parent : String) (bs : BlockState) (o : Option BlockInfo)
      → 0 < n
      → is_past_head n bs ≡ false
      → (get_cached ask n parent o bs).0 ≡ got none
      → is_past_head n (get_cached ask n parent o bs).1 ≡ true
  unfolding get_cached get_uncached fetched is_past_head get_block
  remembered-none n parent bs none l q h = ground (arith, l, q, h)
  remembered-none n parent bs (some b) l q h = ground (arith, h)

  none_past :
      (n : ℕ) (parent : String) (bs : BlockState) (b : Bool)
      → 0 < n
      → is_past_head n bs ≡ b
      → (if b then (got none, bs) else get_cached ask n parent (find_block n bs.blocks) bs).0
        ≡ got none
      → is_past_head n
          (if b then (got none, bs) else get_cached ask n parent (find_block n bs.blocks) bs).1
        ≡ true
  none_past n parent bs true l e h = e
  none_past n parent bs false l e h = remembered-none n parent bs _ l e h

  none-is_past_head :
      (n : ℕ) (parent : String) (bs : BlockState)
      → 0 < n
      → (get_by_number ask n parent bs).0 ≡ got none
      → is_past_head n (get_by_number ask n parent bs).1 ≡ true
  unfolding get_by_number
  none-is_past_head n parent bs l h = none_past n parent bs (is_past_head n bs) l refl h

  is_past_head-none :
      (n : ℕ) (parent : String) (bs : BlockState)
      → is_past_head n bs ≡ true
      → (get_by_number ask n parent bs).0 ≡ got none
  unfolding get_by_number
  is_past_head-none n parent bs h = rw h refl

  past_later :
      (n m : ℕ) (a b : BlockState)
      → n ≤ m
      → Extends a b
      → is_past_head n a ≡ true
      → is_past_head m b ≡ true
  unfolding is_past_head
  past_later n m a b l k h = ground (arith, k.past)

  remembered-some :
      (n : ℕ) (parent : String) (bs : BlockState) (o : Option BlockInfo) (x : BlockInfo)
      → find_block n bs.blocks ≡ o
      → (get_cached ask n parent o bs).0 ≡ got (some x)
      → find_block n (get_cached ask n parent o bs).1.blocks ≡ some x
  unfolding get_cached get_uncached fetched find_block get_block
  remembered-some n parent bs none x q h = ground (arith, h)
  remembered-some n parent bs (some b) x q h = ground (arith, h, q)

  some_found :
      (n : ℕ) (parent : String) (bs : BlockState) (x : BlockInfo) (b : Bool)
      → (if b then (got none, bs) else get_cached ask n parent (find_block n bs.blocks) bs).0
        ≡ got (some x)
      → find_block n
          (if b
            then (got none, bs)
            else get_cached ask n parent (find_block n bs.blocks) bs).1.blocks
        ≡ some x
  some_found n parent bs x true h = ground (arith, h)
  some_found n parent bs x false h = remembered-some n parent bs (find_block n bs.blocks) x refl h

  some-find_block :
      (n : ℕ) (parent : String) (bs : BlockState) (x : BlockInfo)
      → (get_by_number ask n parent bs).0 ≡ got (some x)
      → find_block n (get_by_number ask n parent bs).1.blocks ≡ some x
  unfolding get_by_number
  some-find_block n parent bs x h = some_found n parent bs x (is_past_head n bs) h

  find_block-answer :
      (n : ℕ) (parent : String) (bs : BlockState) (x : BlockInfo)
      → find_block n bs.blocks ≡ some x
      → ((get_by_number ask n parent bs).0 ≡ got (some x))
        ⊎ ((get_by_number ask n parent bs).0 ≡ got none)
  unfolding get_by_number get_cached
  find_block-answer n parent bs x h = elim (Bool-cases (is_past_head n bs)) [
    | inl e ↦ inr (rw e refl)
    | inr e ↦ inl (rw (e, h, get_cached) refl)
  ]

  -- Once the view has answered that there is no block at a number, it has none at this and at any
  -- later number, whatever the connector answers to the queries in between.
  pub get_by_number_no_newer :
      (n m : ℕ) (parent parent' : String) (qs : List (ℕ × String)) (bs : BlockState)
      → 0 < n
      → n ≤ m
      → AllPositive qs
      → (get_by_number ask n parent bs).0 ≡ got none
      → (get_by_number ask m parent' (after_queries ask qs (get_by_number ask n parent bs).1)).0
        ≡ got none
  get_by_number_no_newer n m parent parent' qs bs l le ps h =
      let bs1 = (get_by_number ask n parent bs).1 in
      is_past_head-none m parent' (after_queries ask qs bs1) (
        past_later n m bs1 (after_queries ask qs bs1) le (after_queries-Extends ask qs bs1 ps)
          (none-is_past_head n parent bs l h))

  -- Once the view has answered with a block at a number, it answers with the same block or with
  -- none at that number, whatever the connector answers to the queries in between.
  pub get_by_number_no_change :
      (n : ℕ) (parent parent' : String) (x : BlockInfo) (qs : List (ℕ × String)) (bs : BlockState)
      → AllPositive qs
      → (get_by_number ask n parent bs).0 ≡ got (some x)
      → ((get_by_number ask n parent' (after_queries ask qs (get_by_number ask n parent bs).1)).0
          ≡ got (some x))
        ⊎ ((get_by_number ask n parent' (after_queries ask qs (get_by_number ask n parent bs).1)).0
            ≡ got none)
  get_by_number_no_change n parent parent' x qs bs ps h =
      let bs1 = (get_by_number ask n parent bs).1 in
      find_block-answer n parent' (after_queries ask qs bs1) x
        ((after_queries-Extends ask qs bs1 ps).keeps n x (some-find_block n parent bs x h))
