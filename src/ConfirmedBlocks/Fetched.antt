-- ===== src/ConfirmedBlocks/Fetched.antt =====
-- The steps of the dispatcher that read a block keep what holds of the listener.
use firefly_transaction_mana.Prelude.{
  ℕ, String, ◌≡◌, ◌∙◌, sym, ap, Bool, true, false, Option, none, some, List, [], ◌∷◌, ◌++◌, arith,
  if◌then◌else◌, if_both,
}
use mathlib.Core.Path.{subst}
use mathlib.Core.List.{append-nil, append_assoc}
use firefly_transaction_mana.Confirmations.{BlockInfo}
use firefly_transaction_mana.ConfirmedBlocks.{Listener, last}
use firefly_transaction_mana.ConfirmedBlocks.Notified.{stands_on}
use firefly_transaction_mana.ConfirmedBlocks.Dispatcher.{
  waiting, fetching, attaching, dispatching, System, after_checkpoint, after_last, number_to_fetch,
  popped, read_head, drop_last, attach_fetched,
}
use firefly_transaction_mana.ConfirmedBlocks.Chain.{
  LinkedBlocks, IsFirst, StartsRight, LinkedBlocks-append, LinkedBlocks-drop_last, last-tip,
  StartsRight-drop_last,
}
use firefly_transaction_mana.ConfirmedBlocks.Invariant.{IsBehind, all_blocks, starts_with, Inv}
use firefly_transaction_mana.ConfirmedBlocks.Whole.{Placed, Whole}

module _ (depth : String → ℕ) (required : ℕ) (previous : Option ℕ) where
  abbrev W : System → Type 0
  W s = Whole depth required previous s

  pub popped-Inv :
      (b : BlockInfo) (bs : List BlockInfo) (l : Listener)
      → l.new_head_to_add ≡ b ∷ bs
      → l.waiting_for_from_block ≡ false
      → Inv depth l
      → Inv depth (popped b bs l)
  popped-Inv b bs l e f i =
      let same : all_blocks l ≡ (l.blocks_since_checkpoint ++ b ∷ []) ++ bs =
        ap (λ (hs : List BlockInfo). l.blocks_since_checkpoint ++ hs) e
        ∙ sym (append_assoc l.blocks_since_checkpoint (b ∷ []) bs) in
      record {
        chain = subst (LinkedBlocks depth none) same i.chain;
        starts = subst (StartsRight l.from_block l.rolling_checkpoint) same i.starts;
        behind = i.behind;
        idle = λ q. ground (arith, q, f);
      }

  pub popped-Whole :
      (b : BlockInfo) (bs : List BlockInfo) (s : System)
      → s.listener.new_head_to_add ≡ b ∷ bs
      → s.listener.waiting_for_from_block ≡ false
      → W s
      → W (record s {
        listener = popped b bs s.listener;
        last_from_notification = true;
        place = dispatching;
      })
  popped-Whole b bs s e f w = record {
    inv = popped-Inv b bs s.listener e f w.inv;
    placed = f;
    needs = w.needs;
    sent = w.sent;
  }

  pub Placed-fetch :
      (l : Listener) (t : Bool)
      → l.waiting_for_from_block ≡ false
      → Placed depth l (if t then waiting else fetching (number_to_fetch l))
  unfolding number_to_fetch
  Placed-fetch l true f = tt
  Placed-fetch l false f = (
    f,
    λ e.
        ap
          (λ (bs : List BlockInfo).
            after_last (last bs) (after_checkpoint l.from_block l.rolling_checkpoint))
          e,
  )

  pub read_head-Whole :
      (hs : List BlockInfo) (s : System)
      → s.listener.new_head_to_add ≡ hs
      → s.listener.waiting_for_from_block ≡ false
      → W s
      → W (read_head hs s)
  unfolding read_head
  read_head-Whole (b ∷ bs) s e f w = popped-Whole b bs s e f w
  read_head-Whole [] s e f w = record {
    inv = w.inv;
    placed = Placed-fetch s.listener s.last_from_notification f;
    needs = w.needs;
    sent = w.sent;
  }

  pub IsFirst-asked :
      (from : ℕ) (c : Option ℕ) (n : ℕ)
      → IsBehind from c
      → n ≡ after_checkpoint from c
      → IsFirst from c n
  IsFirst-asked from none n h e = omega (arith, e)
  IsFirst-asked from (some c) n h e = ground (arith, e, h.0, h.1)

  pub grown-Inv :
      (f : BlockInfo) (l : Listener)
      → l.new_head_to_add ≡ []
      → Placed depth l (attaching f)
      → Inv depth l
      → stands_on (last l.blocks_since_checkpoint) f ≡ true
      → Inv depth (record l { blocks_since_checkpoint = l.blocks_since_checkpoint ++ f ∷ [] })
  grown-Inv f l e p i t =
      let bs = l.blocks_since_checkpoint in
      let plain : (xs : List BlockInfo) → xs ++ l.new_head_to_add ≡ xs =
        λ xs. ap (λ (hs : List BlockInfo). xs ++ hs) e ∙ append-nil xs in
      record {
        chain = subst (LinkedBlocks depth none) (sym (plain (bs ++ f ∷ []))) (
            LinkedBlocks-append depth none bs (f ∷ [])
              (subst (LinkedBlocks depth none) (plain bs) i.chain)
              (subst (λ (h : Option BlockInfo). stands_on h f ≡ true) (last-tip bs) t, p.1, tt));
        starts =
            subst (StartsRight l.from_block l.rolling_checkpoint) (sym (plain (bs ++ f ∷ []))) (
              starts_with depth f p.1 l.from_block l.rolling_checkpoint bs
                (subst (StartsRight l.from_block l.rolling_checkpoint) (plain bs) i.starts)
                (λ n.
                  IsFirst-asked l.from_block l.rolling_checkpoint f.block_number i.behind (p.2 n)));
        behind = i.behind;
        idle = λ q. ground (arith, q, p.0);
      }

  pub trimmed-Inv :
      (f : BlockInfo) (l : Listener)
      → l.new_head_to_add ≡ []
      → Placed depth l (attaching f)
      → Inv depth l
      → Inv depth (record l { blocks_since_checkpoint = drop_last l.blocks_since_checkpoint })
  trimmed-Inv f l e p i =
      let bs = l.blocks_since_checkpoint in
      let plain : (xs : List BlockInfo) → xs ++ l.new_head_to_add ≡ xs =
        λ xs. ap (λ (hs : List BlockInfo). xs ++ hs) e ∙ append-nil xs in
      record {
        chain = subst (LinkedBlocks depth none) (sym (plain (drop_last bs))) (
            LinkedBlocks-drop_last depth none bs
              (subst (LinkedBlocks depth none) (plain bs) i.chain));
        starts =
            subst (StartsRight l.from_block l.rolling_checkpoint) (sym (plain (drop_last bs))) (
              StartsRight-drop_last l.from_block l.rolling_checkpoint bs
                (subst (StartsRight l.from_block l.rolling_checkpoint) (plain bs) i.starts));
        behind = i.behind;
        idle = λ q. ground (arith, q, p.0);
      }

  pub attach_fetched-Whole :
      (f : BlockInfo) (hs : List BlockInfo) (s : System)
      → s.listener.new_head_to_add ≡ hs
      → Placed depth s.listener (attaching f)
      → W s
      → W (attach_fetched f hs s)
  unfolding attach_fetched
  attach_fetched-Whole f (b ∷ bs) s e p w = popped-Whole b bs s e p.0 w
  attach_fetched-Whole f [] s e p w = record {
    inv =
        if_both
          (λ (bs : List BlockInfo).
            Inv depth (record (s.listener) { blocks_since_checkpoint = bs }))
          (stands_on (last s.listener.blocks_since_checkpoint) f) _ _
          (λ t. grown-Inv f s.listener e p w.inv t) (λ _. trimmed-Inv f s.listener e p w.inv);
    placed = p.0;
    needs = w.needs;
    sent = w.sent;
  }
