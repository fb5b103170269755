-- ===== src/ConfirmedBlocks/Laws.antt =====
-- Which blocks the listener dispatches, in which order, under every interleaving.
use firefly_transaction_mana.Prelude.{
  ℕ, suc, ◌≤◌, String, ◌≡◌, ◌∙◌, refl, sym, ap, false, Option, none, some, List, [], ◌∷◌, ◌++◌, ltb,
  length, arith, if_both,
}
use mathlib.Core.Path.{subst}
use firefly_transaction_mana.Confirmations.{BlockInfo, next_number}
use firefly_transaction_mana.Confirmations.Blocks.{Got, got, failed}
use firefly_transaction_mana.ConfirmedBlocks.{started_at}
use firefly_transaction_mana.ConfirmedBlocks.Notified.{
  settle, is_ignored, take_block, fell_behind, attach_block, is_next, dispatch_head,
  process_block_notification,
}
use firefly_transaction_mana.ConfirmedBlocks.Dispatcher.{
  Dispatched, Place, waiting, reading, fetching, attaching, dispatching, System, number_to_fetch,
  read_head, answered, dispatch_one, step_at, Action, notified, dispatcher, act, run, start,
}
use firefly_transaction_mana.ConfirmedBlocks.Chain.{
  OnChain, LinkedBlocks, IsFirst, StartsRight, LinkedBlocks-free, LinkedBlocks-first,
  number-stands_on,
}
use firefly_transaction_mana.ConfirmedBlocks.Invariant.{IsBehind}
use firefly_transaction_mana.ConfirmedBlocks.Whole.{
  Follows, InOrder, ActionOnChain, AllOnChain, IsAsked, Placed, Whole, notified-Whole, woken-Whole,
}
use firefly_transaction_mana.ConfirmedBlocks.Fetched.{read_head-Whole, attach_fetched-Whole}

module _ (depth : String → ℕ) (required : ℕ) (previous : Option ℕ) where
  abbrev W : System → Type 0
  W s = Whole depth required previous s

  from-le-first : (from : ℕ) (c : Option ℕ) (n : ℕ) → IsBehind from c → IsFirst from c n → from ≤ n
  from-le-first from none n h k = k
  from-le-first from (some c) n h k = omega (arith, h.0, k)

  Follows-first : (from : ℕ) (c : Option ℕ) (n : ℕ) → IsFirst from c n → Follows c n
  Follows-first from none n h = tt
  Follows-first from (some c) n h = h

  starts_after :
      (from : ℕ) (b : BlockInfo) (xs : List BlockInfo)
      → OnChain depth b
      → LinkedBlocks depth (some b) xs
      → StartsRight from (some b.block_number) xs
  starts_after from b [] c h = tt
  starts_after from b (x ∷ xs) c h = number-stands_on depth b x c h.1 h.0

  InOrder-snoc :
      (c : Option ℕ) (es : List Dispatched) (mid : Option ℕ) (e : Dispatched)
      → InOrder depth required c es mid
      → Follows mid e.block.block_number
      → e.checkpoint ≡ e.block.block_number
      → required ≤ length e.on_top
      → LinkedBlocks depth (some e.block) e.on_top
      → InOrder depth required c (es ++ e ∷ []) (some e.block.block_number)
  InOrder-snoc c [] mid e h f g k l =
      (subst (λ (m : Option ℕ). Follows m e.block.block_number) (sym h) f, g, k, l, refl)
  InOrder-snoc c (d ∷ es) mid e h f g k l =
      (h.0, h.1, h.2, h.3, InOrder-snoc (some d.block.block_number) es mid e h.4 f g k l)

  dispatched-Whole :
      (b : BlockInfo) (bs : List BlockInfo) (s : System)
      → s.listener.blocks_since_checkpoint ≡ b ∷ bs
      → s.place ≡ dispatching
      → s.listener.waiting_for_from_block ≡ false
      → required ≤ length bs
      → W s
      → W (record s {
        listener = record (s.listener) {
          blocks_since_checkpoint = bs;
          rolling_checkpoint = some b.block_number;
        };
        events = s.events ++ record { block = b; checkpoint = b.block_number; on_top = bs } ∷ [];
      })
  dispatched-Whole b bs s e p f r w =
      let l = s.listener in
      let same = ap (λ (xs : List BlockInfo). xs ++ l.new_head_to_add) e in
      let c = subst (LinkedBlocks depth none) same w.inv.chain in
      let first = subst (StartsRight l.from_block l.rolling_checkpoint) same w.inv.starts in
      record {
        inv = record {
          chain = LinkedBlocks-free depth (some b) (bs ++ l.new_head_to_add) c.2;
          starts = starts_after l.from_block b (bs ++ l.new_head_to_add) c.1 c.2;
          behind = (
            from-le-first l.from_block l.rolling_checkpoint b.block_number w.inv.behind first,
            c.1.2,
          );
          idle = λ q. ground (arith, q, f);
        };
        placed =
            subst
              (Placed depth (record l {
                blocks_since_checkpoint = bs;
                rolling_checkpoint = some b.block_number;
              }))
              (sym p) f;
        needs = w.needs;
        sent =
            InOrder-snoc previous s.events l.rolling_checkpoint
              (record { block = b; checkpoint = b.block_number; on_top = bs }) w.sent
              (Follows-first l.from_block l.rolling_checkpoint b.block_number first) refl r
              (LinkedBlocks-first depth (some b) bs l.new_head_to_add c.2);
      }

  done-Whole :
      (s : System)
      → s.listener.waiting_for_from_block ≡ false
      → W s
      → W (record s { place = reading })
  done-Whole s f w = record { inv = w.inv; placed = f; needs = w.needs; sent = w.sent }

  dispatch_one-Whole :
      (bs : List BlockInfo) (s : System)
      → s.listener.blocks_since_checkpoint ≡ bs
      → s.place ≡ dispatching
      → s.listener.waiting_for_from_block ≡ false
      → W s
      → W (dispatch_one bs s)
  unfolding dispatch_one
  dispatch_one-Whole [] s e p f w = done-Whole s f w
  dispatch_one-Whole (b ∷ bs) s e p f w =
      if_both W (ltb s.listener.required_confirmations (suc (length bs))) _ _
        (λ t. dispatched-Whole b bs s e p f (ground (arith, t, w.needs)) w) (λ _. done-Whole s f w)

  answered-Whole :
      (g : Got) (n : ℕ) (s : System)
      → s.listener.waiting_for_from_block ≡ false
      → IsAsked s.listener n
      → ((b : BlockInfo) → g ≡ got (some b) → OnChain depth b × (b.block_number ≡ n))
      → W s
      → W (answered g s)
  unfolding answered
  answered-Whole (failed e) n s f a c w = done-Whole s f w
  answered-Whole (got none) n s f a c w = record {
    inv = w.inv;
    placed = tt;
    needs = w.needs;
    sent = w.sent;
  }
  answered-Whole (got (some b)) n s f a c w = record {
    inv = w.inv;
    placed = (f, (c b refl).0, λ e. (c b refl).1 ∙ a e);
    needs = w.needs;
    sent = w.sent;
  }

  step-Whole :
      (p : Place) (answer : ℕ → Got) (s : System)
      → s.place ≡ p
      → ActionOnChain depth (dispatcher answer)
      → W s
      → W (step_at p answer s)
  unfolding step_at
  step-Whole waiting answer s e c w = (woken-Whole depth required previous) s w
  step-Whole reading answer s e c w =
      (read_head-Whole depth required previous) s.listener.new_head_to_add s refl
        (subst (Placed depth s.listener) e w.placed) w
  step-Whole (fetching n) answer s e c w =
      let p = subst (Placed depth s.listener) e w.placed in
      answered-Whole (answer n) n s p.0 p.1 (c n) w
  step-Whole (attaching f) answer s e c w =
      (attach_fetched-Whole depth required previous) f s.listener.new_head_to_add s refl
        (subst (Placed depth s.listener) e w.placed) w
  step-Whole dispatching answer s e c w =
      dispatch_one-Whole s.listener.blocks_since_checkpoint s refl e
        (subst (Placed depth s.listener) e w.placed) w

  act-Whole : (a : Action) (s : System) → ActionOnChain depth a → W s → W (act a s)
  unfolding act
  act-Whole (notified b) s c w = (notified-Whole depth required previous) b s c w
  act-Whole (dispatcher answer) s c w = step-Whole s.place answer s refl c w

  run-Whole :
      (actions : List Action) (s : System) → AllOnChain depth actions → W s → W (run actions s)
  unfolding run
  run-Whole [] s c w = w
  run-Whole (a ∷ more) s c w = run-Whole more (act a s) c.1 (act-Whole a s c.0 w)

-- A listener without a start waits for the first notification, and has no checkpoint then; the
-- checkpoint of another is not before its start.
abbrev pub CanStart : Option ℕ → Option ℕ → Type 0
CanStart checkpoint none = checkpoint ≡ none
CanStart checkpoint (some from) = IsBehind from checkpoint

started-Whole :
    (depth : String → ℕ) (required : ℕ) (checkpoint at : Option ℕ)
    → CanStart checkpoint at
    → Whole depth required checkpoint (start (started_at required checkpoint at))
started-Whole depth required checkpoint (some from) h = record {
  inv = record { chain = tt; starts = tt; behind = h; idle = λ q. ground (arith, q) };
  placed = refl;
  needs = refl;
  sent = refl;
}
started-Whole depth required checkpoint none h = record {
  inv = record {
    chain = tt;
    starts = tt;
    behind = subst (IsBehind 0) (sym h) tt;
    idle = λ q. (h, refl, refl);
  };
  placed = tt;
  needs = refl;
  sent = refl;
}

-- If what the program is told belongs to one chain, and the checkpoint that the listener is started
-- with is not before the block that it starts at and leaves room for the next number, then under
-- every interleaving of notifications with the steps of the dispatcher the events are in order: the
-- first block comes right after the checkpoint that the listener was started with, if any, each
-- other one right after the one before, each with its own number as the checkpoint, and at least
-- the required number of blocks stood linked on top of it.
pub run-InOrder :
    (depth : String → ℕ) (required : ℕ) (checkpoint at : Option ℕ) (actions : List Action)
    → CanStart checkpoint at
    → AllOnChain depth actions
    → InOrder depth required checkpoint
        (run actions (start (started_at required checkpoint at))).events
        (run actions (start (started_at required checkpoint at))).listener.rolling_checkpoint
run-InOrder depth required checkpoint at actions h c =
    (run-Whole depth required checkpoint actions (start (started_at required checkpoint at)) c
      (started-Whole depth required checkpoint at h)).sent

-- A listener that is started at a block without a checkpoint takes the first block that it is
-- notified of, however far it is ahead of the start, if the notification comes before the
-- dispatcher has read a block: the next block that it asks for is the one after.
pub notified_skips :
    (required from : ℕ) (b : BlockInfo) (answer : ℕ → Got)
    → from ≤ b.block_number
    → (number_to_fetch
          (run
            (notified b ∷ dispatcher answer ∷ [])
            (start (started_at required none (some from)))).listener
        ≡ next_number b.block_number)
unfolding run act process_block_notification settle is_ignored take_block fell_behind attach_block
    is_next dispatch_head step_at read_head number_to_fetch
notified_skips required from b answer h = ground (arith, h)
