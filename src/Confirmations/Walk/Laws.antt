-- ===== src/Confirmations/Walk/Laws.antt =====
-- What a walk up the chain finds, and that it ends.
use mathlib.Core.Path.{subst}
use firefly_transaction_mana.Prelude.{
  ℕ, zero, suc, ◌+◌, ◌≤◌, ◌<◌, String, ◌≡◌, ◌∙◌, refl, sym, ap, Bool, true, false, not, Option,
  none, some, List, [], ◌∷◌, ◌++◌, ◌||◌, inl, inr, Bool-cases, leb, ◌==◌, length, length-append,
  str_eq, eq_iff, arith, if_both, if_false,
}
use firefly_transaction_mana.Handler.{Error, Confirmation}
use firefly_transaction_mana.Confirmations.{
  BlockInfo, PendingItem, next_number, confirmation_from_block,
}
use firefly_transaction_mana.Confirmations.Blocks.{
  Got, got, failed, BlockState, Connector, get_by_number,
}
use firefly_transaction_mana.Confirmations.Walk.{
  Walked, walked, walk_failed, out_of_fuel, Tracking, add_block, with_block, is_unseen, walk_loop,
  walk_required, walk_from, ItemStep, notify_walked, after_walk, walk_chain_for_item,
}
use firefly_transaction_mana.Confirmations.Dispatch.{is_empty, dispatch_confirmations}
use firefly_transaction_mana.Confirmations.Dispatch.Synced.{
  receive_all, UpToDate, none_added, prefix_nil, dispatch_confirmations-Synced,
}
use firefly_transaction_mana.Confirmations.Height.{connector_error, HeightToolkit}
use firefly_transaction_mana.Confirmations.Walk.Linked.{
  Linked, linked_nil, Linked-append, tip, tip-append,
}

-- What the loop may end with, for an item whose block has the hash `start`.
abbrev pub Good : ℕ → String → Walked → Type 0
Good required start (walked cs true bs) = Linked start cs × (length cs ≡ required)
Good required start (walked cs false bs) = Linked start cs × (length cs < required)
Good required start (walk_failed e cs bs) = Linked start cs × (length cs < required)
Good required start out_of_fuel = ⊥

module _ (ask : Connector) (t : Tracking) (start : String) where
  add_block-Good :
      (go : List Confirmation → BlockState → Walked) (b : BlockInfo) (parent : String)
      (cs : List Confirmation) (bs : BlockState)
      → Linked start cs
      → parent ≡ tip start cs
      → length cs < t.required_confirmations
      → ((ds : List Confirmation)
          → Linked start ds
          → b.block_hash ≡ tip start ds
          → length ds ≡ suc (length cs)
          → length ds < t.required_confirmations
          → Good t.required_confirmations start (go ds bs))
      → Good t.required_confirmations start (add_block t.required_confirmations go b parent cs bs)
  unfolding add_block
  add_block-Good go b parent cs bs l e h rest =
      let c = confirmation_from_block b in
      let ds = cs ++ c ∷ [] in
      let n : length ds ≡ suc (length cs) = omega (arith, length-append cs (c ∷ [])) in
      elim (Bool-cases (str_eq b.parent_hash parent)) [
        | inr f ↦ rw (f, add_block) (l, h)
        | inl f ↦
            let k = Linked-append start cs c l ((eq_iff b.parent_hash parent).0 f ∙ e) in
            rw (f, add_block)
              (elim (Bool-cases (leb t.required_confirmations (length ds))) [
                | inl g ↦ rw (g, add_block) (k, ground (arith, g, n, h))
                | inr g ↦
                    rw (g, add_block)
                      (rest ds k (sym (tip-append start cs c)) n (ground (arith, g)))
              ])
      ]

  with_block-Good :
      (go : String → List Confirmation → BlockState → Walked) (parent : String)
      (cs : List Confirmation) (x : Got × BlockState)
      → Linked start cs
      → parent ≡ tip start cs
      → length cs < t.required_confirmations
      → ((hash : String) (ds : List Confirmation) (bs : BlockState)
          → Linked start ds
          → hash ≡ tip start ds
          → length ds ≡ suc (length cs)
          → length ds < t.required_confirmations
          → Good t.required_confirmations start (go hash ds bs))
      → Good t.required_confirmations start (with_block t.required_confirmations go parent cs x)
  unfolding with_block
  with_block-Good go parent cs (failed e, bs) l e' h rest = (l, h)
  with_block-Good go parent cs (got none, bs) l e h rest = (l, h)
  with_block-Good go parent cs (got (some b), bs) l e h rest =
      add_block-Good (go b.block_hash) b parent cs bs l e h (λ ds. rest b.block_hash ds bs)

  walk_loop-Good :
      (fuel n : ℕ) (parent : String) (cs : List Confirmation) (bs : BlockState)
      → Linked start cs
      → parent ≡ tip start cs
      → length cs < t.required_confirmations
      → t.required_confirmations ≤ length cs + fuel
      → Good t.required_confirmations start (walk_loop ask t fuel n parent cs bs)
  unfolding walk_loop
  walk_loop-Good zero n parent cs bs l e h k = ground arith
  walk_loop-Good (suc fuel) n parent cs bs l e h k = elim (Bool-cases (is_unseen t n)) [
    | inl f ↦ rw (f, walk_loop) (l, h)
    | inr f ↦
        rw (f, walk_loop)
          (with_block-Good (walk_loop ask t fuel (next_number n)) parent cs
            (get_by_number ask n parent bs) l e h
            (λ hash ds bs' l' e' n' h'.
              walk_loop-Good fuel (next_number n) hash ds bs' l' e' h' (omega arith)))
  ]

walk_required-Good :
    (ask : Connector) (t : Tracking) (r : ℕ) (p : PendingItem) (bs : BlockState)
    → r ≡ t.required_confirmations
    → Good t.required_confirmations p.block_hash (walk_required ask t r p bs)
unfolding walk_required
walk_required-Good ask t zero p bs e = (linked_nil, e)
walk_required-Good ask t (suc k) p bs e =
    walk_loop-Good ask t p.block_hash (suc k) (next_number p.block_number) p.block_hash [] bs
      linked_nil refl (omega (arith, e)) (omega (arith, e))

pub walk_from-Good :
    (ask : Connector) (t : Tracking) (p : PendingItem) (bs : BlockState)
    → Good t.required_confirmations p.block_hash (walk_from ask t p bs)
unfolding walk_from
walk_from-Good ask t p bs = walk_required-Good ask t t.required_confirmations p bs refl

-- A walk of `p` that ended.
pub data WalkEnd (required : ℕ) (p : PendingItem) : Option ItemStep → Type 0 where
  -- The item's confirmations are a chain of blocks on top of its own, no more than required, and
  -- it is confirmed if they are as many as required, or was before. A receiver of the calls that
  -- had what was notified before has exactly the item's hashes, or it has what it had, and the
  -- item has the first of them.
  done :
      (s : ItemStep)
      → Linked p.block_hash s.item.confirmations
      → length s.item.confirmations ≤ required
      → s.item.confirmed ≡ (p.confirmed || length s.item.confirmations == required)
      → receive_all p.notified_confirmations s.effects ≡ s.item.notified_confirmations
      → UpToDate s.item.confirmations p.notified_confirmations s.item.notified_confirmations
      → s.error ≡ none
      → WalkEnd required p (some s)
  -- The connector failed: nothing is notified, and the item is not confirmed by this walk.
  stopped :
      (s : ItemStep) (e : Error)
      → Linked p.block_hash s.item.confirmations
      → length s.item.confirmations < required
      → s.item.confirmed ≡ p.confirmed
      → s.item.notified_confirmations ≡ p.notified_confirmations
      → s.effects ≡ []
      → s.error ≡ some (connector_error e)
      → WalkEnd required p (some s)

nothing_new :
    (cs ns : List Confirmation) (b : Bool) → (b || not (is_empty cs)) ≡ false → UpToDate cs ns ns
nothing_new [] ns b h = none_added refl prefix_nil
nothing_new (c ∷ cs) ns b h = ground (arith, h)

module _ (required : ℕ) (p : PendingItem) where
  notified_walk :
      (cs : List Confirmation) (reached : Bool) (bs : BlockState)
      → Linked p.block_hash cs
      → length cs ≤ required
      → (length cs == required) ≡ reached
      → WalkEnd required p (
          some (
            notify_walked required
              (record p { confirmations = cs; confirmed = p.confirmed || reached })
              bs))
  unfolding notify_walked
  notified_walk cs reached bs l h e =
      let q : PendingItem = record p { confirmations = cs; confirmed = p.confirmed || reached } in
      let k = dispatch_confirmations-Synced required q in
      let x = (dispatch_confirmations required q).0 in
      if_both (λ (s : ItemStep). WalkEnd required p (some s)) (q.confirmed || not (is_empty cs)) _ _
        (λ _.
          done _ (subst (Linked p.block_hash) (sym k.same) l)
            (subst (λ (ds : List Confirmation). length ds ≤ required) (sym k.same) h)
            (k.same_confirmed
              ∙ ap (λ (b : Bool). p.confirmed || b) (sym e)
              ∙ ap (λ (ds : List Confirmation). p.confirmed || length ds == required) (sym k.same))
            k.received
            (subst
              (λ (ds : List Confirmation).
                UpToDate ds p.notified_confirmations x.notified_confirmations)
              (sym k.same) k.up_to_date)
            refl)
        (λ f.
          done (record { item = q; blocks = bs; effects = []; error = none }) l h
            (ap (λ (b : Bool). p.confirmed || b) (sym e)) refl
            (nothing_new cs p.notified_confirmations q.confirmed f) refl)

  after_walk-End :
      (w : Walked) → Good required p.block_hash w → WalkEnd required p (after_walk required p w)
  unfolding after_walk
  after_walk-End (walked cs true bs) g =
      notified_walk cs true bs g.0 (omega (arith, g.1)) (ground (arith, g.1))
  after_walk-End (walked cs false bs) g =
      notified_walk cs false bs g.0 (omega (arith, g.1)) (ground (arith, g.1))
  after_walk-End (walk_failed e cs bs) g = stopped _ e g.0 g.1 refl refl refl refl
  after_walk-End out_of_fuel g = elim g [ ]

-- A walk of an item that has a block, in full chain tracking, ends within the fuel that it has,
-- whatever the connector answers. If the connector does not fail, the item's confirmations are a
-- chain of blocks on top of its own, no more than required; it is confirmed exactly if they are as
-- many as required or it was before; and a receiver that holds what was notified before has, after
-- the calls, exactly the hashes of the item's confirmations, or it has what it had, with nothing
-- added, and the item's confirmations are the first of those. If the connector fails, nothing is
-- notified, and the walk confirms nothing.
pub walk_chain_for_item-End :
    (ask : Connector) (tk : HeightToolkit) (t : Tracking) (p : PendingItem) (bs : BlockState)
    → str_eq p.block_hash "" ≡ false
    → t.light ≡ false
    → WalkEnd t.required_confirmations p (walk_chain_for_item ask tk t p bs)
unfolding walk_chain_for_item
walk_chain_for_item-End ask tk t p bs h f =
    if_false (WalkEnd t.required_confirmations p) (str_eq p.block_hash "") _ _ h (
      if_false (WalkEnd t.required_confirmations p) t.light _ _ f (
        after_walk-End t.required_confirmations p (walk_from ask t p bs)
          (walk_from-Good ask t p bs)))
