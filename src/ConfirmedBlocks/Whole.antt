-- ===== src/ConfirmedBlocks/Whole.antt =====
-- What holds of the listener and its dispatcher between two steps, and that notifications and the
-- wake-up of the dispatcher keep it.
use firefly_transaction_mana.Prelude.{
  ℕ, suc, ◌≤◌, String, ◌≡◌, ◌∙◌, refl, sym, Bool, true, false, Option, none, some, List, [], ◌∷◌,
  length, arith, if◌then◌else◌, if_both, inl, inr, Bool-cases,
}
use mathlib.Core.Path.{subst, ap₂}
use firefly_transaction_mana.Confirmations.{BlockInfo}
use firefly_transaction_mana.Confirmations.Blocks.{got}
use firefly_transaction_mana.ConfirmedBlocks.{Listener}
use firefly_transaction_mana.ConfirmedBlocks.Dispatcher.{
  Dispatched, Place, waiting, reading, fetching, attaching, dispatching, System, after_checkpoint,
  woken, Action, notified, dispatcher, act,
}
use firefly_transaction_mana.ConfirmedBlocks.Chain.{OnChain, LinkedBlocks}
use firefly_transaction_mana.ConfirmedBlocks.Invariant.{
  Inv, Noticed, process_block_notification-Good,
}

-- A number that comes right after the one before, if there was one.
abbrev pub Follows : Option ℕ → ℕ → Type 0
Follows none n = Unit {0}
Follows (some c) n = n ≡ suc c

-- The events from the checkpoint `previous` on: each is the block right after the one before, and
-- its checkpoint; at least `required` blocks stand on top of it, linked by their hashes. `final` is
-- the checkpoint after them.
abbrev pub InOrder : (String → ℕ) → ℕ → Option ℕ → List Dispatched → Option ℕ → Type 0
InOrder depth required previous [] final = previous ≡ final
InOrder depth required previous (e ∷ es) final =
    Follows previous e.block.block_number
    × (e.checkpoint ≡ e.block.block_number)
    × (required ≤ length e.on_top)
    × LinkedBlocks depth (some e.block) e.on_top
    × InOrder depth required (some e.block.block_number) es final

-- What the program is told belongs to one chain: the blocks of the notifications, and those that
-- the connector answers with, which have the number that was asked for.
abbrev pub ActionOnChain : (String → ℕ) → Action → Type 0
ActionOnChain depth (notified b) = OnChain depth b
ActionOnChain depth (dispatcher answer) =
    (n : ℕ) (b : BlockInfo) → answer n ≡ got (some b) → OnChain depth b × (b.block_number ≡ n)

abbrev pub AllOnChain : (String → ℕ) → List Action → Type 0
AllOnChain depth [] = Unit {0}
AllOnChain depth (a ∷ more) = ActionOnChain depth a × AllOnChain depth more

-- A number that was asked for while there were no blocks is the first one.
abbrev pub IsAsked : Listener → ℕ → Type 0
IsAsked l n =
    l.blocks_since_checkpoint ≡ [] → n ≡ after_checkpoint l.from_block l.rolling_checkpoint

abbrev pub Placed : (String → ℕ) → Listener → Place → Type 0
Placed depth l waiting = Unit {0}
Placed depth l reading = l.waiting_for_from_block ≡ false
Placed depth l (fetching n) = (l.waiting_for_from_block ≡ false) × IsAsked l n
Placed depth l (attaching b) =
    (l.waiting_for_from_block ≡ false) × OnChain depth b × IsAsked l b.block_number
Placed depth l dispatching = l.waiting_for_from_block ≡ false

pub record Whole (depth : String → ℕ) (required : ℕ) (previous : Option ℕ) (s : System)
    : Type 0 where
  pub inv : Inv depth s.listener
  pub placed : Placed depth s.listener s.place
  pub needs : s.listener.required_confirmations ≡ required
  pub sent : InOrder depth required previous s.events s.listener.rolling_checkpoint

module _ (depth : String → ℕ) (required : ℕ) (previous : Option ℕ) where
  abbrev W : System → Type 0
  W s = Whole depth required previous s

  pub not_waiting :
      (l l' : Listener)
      → Noticed l l'
      → l.waiting_for_from_block ≡ false
      → l'.waiting_for_from_block ≡ false
  not_waiting l l' k h = elim (Bool-cases l'.waiting_for_from_block) [
    | inl e ↦ ground (arith, k.waits e, h)
    | inr e ↦ e
  ]

  pub asked :
      (l l' : Listener) (n : ℕ)
      → Noticed l l'
      → l.waiting_for_from_block ≡ false
      → IsAsked l n
      → IsAsked l' n
  asked l l' n k h a e =
      a (k.kept e) ∙ ap₂ after_checkpoint (sym (k.same_from h)) (sym k.same_checkpoint)

  -- A notification leaves the dispatcher where it stands.
  pub Placed-Noticed :
      (l l' : Listener) (p : Place) → Noticed l l' → Placed depth l p → Placed depth l' p
  Placed-Noticed l l' waiting k h = tt
  Placed-Noticed l l' reading k h = not_waiting l l' k h
  Placed-Noticed l l' (fetching n) k h = (not_waiting l l' k h.0, asked l l' n k h.0 h.1)
  Placed-Noticed l l' (attaching b) k h =
      (not_waiting l l' k h.0, h.1, asked l l' b.block_number k h.0 h.2)
  Placed-Noticed l l' dispatching k h = not_waiting l l' k h

  pub notified-Whole : (b : BlockInfo) (s : System) → OnChain depth b → W s → W (act (notified b) s)
  unfolding act
  notified-Whole b s c w =
      let (i, k) = process_block_notification-Good depth b c s.listener w.inv in
      record {
        inv = i;
        placed = Placed-Noticed s.listener _ s.place k w.placed;
        needs = k.same_required ∙ w.needs;
        sent = subst (InOrder depth required previous s.events) (sym k.same_checkpoint) w.sent;
      }

  pub Placed-woken :
      (l : Listener) (t : Bool)
      → l.waiting_for_from_block ≡ t
      → Placed depth l (if t then waiting else reading)
  Placed-woken l true e = tt
  Placed-woken l false e = e

  pub woken-Whole : (s : System) → W s → W (woken s)
  unfolding woken
  woken-Whole s w =
      if_both W s.listener.tapped _ _
        (λ _. record {
          inv = record {
            chain = w.inv.chain;
            starts = w.inv.starts;
            behind = w.inv.behind;
            idle = w.inv.idle;
          };
          placed =
              Placed-woken (record (s.listener) { tapped = false })
                s.listener.waiting_for_from_block refl;
          needs = w.needs;
          sent = w.sent;
        })
        (λ _. w)
