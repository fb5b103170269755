-- ===== src/ConfirmedBlocks/Invariant.antt =====
-- What holds of the listener whenever the lock is free, and that notifications keep it.
use firefly_transaction_mana.Prelude.{
  ℕ, ◌≤◌, ◌<◌, String, ◌≡◌, ◌∙◌, refl, sym, ap, true, false, Option, none, some, List, [], ◌∷◌,
  ◌++◌, arith, if_both,
}
use mathlib.Core.Path.{subst}
use mathlib.Core.List.{append-nil, append_assoc}
use firefly_transaction_mana.Confirmations.{BlockInfo, next_number}
use firefly_transaction_mana.ConfirmedBlocks.{Listener}
use firefly_transaction_mana.ConfirmedBlocks.Notified.{
  stands_on, is_checkpointed, is_next, dispatch_head, reorg, reorganized, attach_block, settle,
  is_ignored, fell_behind, take_block, process_block_notification,
}
use firefly_transaction_mana.ConfirmedBlocks.Chain.{
  OnChain, LinkedBlocks, IsFirst, StartsRight, StartsRight-first, tip, LinkedBlocks-append,
  LinkedBlocks-first, reorg-Replaced, dispatch_head-tip, reorg-StartsRight, IsKept, reorg-IsKept,
  Replaced, StartsRightIf,
}

-- The checkpoint is not before the start.
abbrev pub IsBehind : ℕ → Option ℕ → Type 0
IsBehind from none = Unit {0}
IsBehind from (some c) = (from ≤ c) × (c < 18446744073709551615)

-- The blocks since the checkpoint, and those of the notifications after them.
abbrev pub all_blocks : Listener → List BlockInfo
all_blocks l = l.blocks_since_checkpoint ++ l.new_head_to_add

pub record Inv (depth : String → ℕ) (l : Listener) : Type 0 where
  pub chain : LinkedBlocks depth none (all_blocks l)
  pub starts : StartsRight l.from_block l.rolling_checkpoint (all_blocks l)
  pub behind : IsBehind l.from_block l.rolling_checkpoint
  pub idle :
      l.waiting_for_from_block ≡ true
      → (l.rolling_checkpoint ≡ none) × (l.blocks_since_checkpoint ≡ []) × (l.new_head_to_add ≡ [])

-- What a notification does not change.
pub record Noticed (l l' : Listener) : Type 0 where
  pub same_checkpoint : l'.rolling_checkpoint ≡ l.rolling_checkpoint
  pub same_from : l.waiting_for_from_block ≡ false → l'.from_block ≡ l.from_block
  pub same_required : l'.required_confirmations ≡ l.required_confirmations
  pub kept : l'.blocks_since_checkpoint ≡ [] → l.blocks_since_checkpoint ≡ []
  pub waits : l'.waiting_for_from_block ≡ true → l.waiting_for_from_block ≡ true

abbrev pub Good : (String → ℕ) → Listener → Listener → Type 0
Good depth l l' = Inv depth l' × Noticed l l'

module _ (depth : String → ℕ) (b : BlockInfo) (on_chain : OnChain depth b) where
  stands_on_of_next :
      (h : Option BlockInfo) (c : Option ℕ) → is_next b h c ≡ true → stands_on h b ≡ true
  unfolding is_next
  stands_on_of_next none c e = refl
  stands_on_of_next (some h) c e = ground (arith, e)

  -- A block that is awaited right after the checkpoint is the first.
  IsFirst-of_next :
      (from : ℕ) (c : Option ℕ)
      → from ≤ b.block_number
      → is_checkpointed c b.block_number ≡ false
      → is_next b none c ≡ true
      → IsFirst from c b.block_number
  unfolding is_next
  IsFirst-of_next from none f g e = f
  IsFirst-of_next from (some c) f g e =
      let r : b.block_number ≡ next_number c = ground (arith, e) in
      let q : c < b.block_number = ground (arith, g) in omega (arith, r, q, on_chain.2)

  pub starts_with :
      (from : ℕ) (c : Option ℕ) (xs : List BlockInfo)
      → StartsRight from c xs
      → (xs ≡ [] → IsFirst from c b.block_number)
      → StartsRight from c (xs ++ b ∷ [])
  starts_with from c [] h k = k refl
  starts_with from c (x ∷ xs) h k = h

  -- The new block goes onto the end of the notifications.
  appended :
      (l : Listener)
      → Inv depth l
      → l.waiting_for_from_block ≡ false
      → l.from_block ≤ b.block_number
      → is_checkpointed l.rolling_checkpoint b.block_number ≡ false
      → is_next b (dispatch_head l) l.rolling_checkpoint ≡ true
      → Good depth l (record l { new_head_to_add = l.new_head_to_add ++ b ∷ [] })
  unfolding dispatch_head
  appended l inv w f g e =
      let xs = all_blocks l in
      let head = dispatch_head-tip l.blocks_since_checkpoint l.new_head_to_add in
      let same : l.blocks_since_checkpoint ++ (l.new_head_to_add ++ b ∷ []) ≡ xs ++ b ∷ [] =
        sym (append_assoc l.blocks_since_checkpoint l.new_head_to_add (b ∷ [])) in
      let next : is_next b (tip none xs) l.rolling_checkpoint ≡ true =
        subst (λ (h : Option BlockInfo). is_next b h l.rolling_checkpoint ≡ true) head e in
      (
        record {
          chain = subst (LinkedBlocks depth none) (sym same) (
              LinkedBlocks-append depth none xs (b ∷ []) inv.chain
                (stands_on_of_next (tip none xs) l.rolling_checkpoint next, on_chain, tt));
          starts = subst (StartsRight l.from_block l.rolling_checkpoint) (sym same) (
              starts_with l.from_block l.rolling_checkpoint xs inv.starts (λ n.
                IsFirst-of_next l.from_block l.rolling_checkpoint f g (
                  subst
                    (λ (ys : List BlockInfo). is_next b (tip none ys) l.rolling_checkpoint ≡ true) n
                    next)));
          behind = inv.behind;
          idle = λ q. ground (arith, q, w);
        },
        record {
          same_checkpoint = refl;
          same_from = λ _. refl;
          same_required = refl;
          kept = λ n. n;
          waits = λ n. n;
        },
      )

  unchanged : (l : Listener) → Inv depth l → Good depth l l
  unchanged l inv = (
    inv,
    record {
      same_checkpoint = refl;
      same_from = λ _. refl;
      same_required = refl;
      kept = λ n. n;
      waits = λ n. n;
    },
  )

  -- The new block replaces one of the blocks since the checkpoint.
  replaced :
      (l : Listener) (o : Option (List BlockInfo))
      → Inv depth l
      → l.waiting_for_from_block ≡ false
      → Replaced depth none l.blocks_since_checkpoint o
      → StartsRightIf l.from_block l.rolling_checkpoint o
      → IsKept l.blocks_since_checkpoint o
      → Good depth l (reorganized o l)
  replaced l none inv w c r k = unchanged l inv
  replaced l (some bs) inv w c r k = (
    record {
      chain = subst (LinkedBlocks depth none) (sym (append-nil bs)) c;
      starts = subst (StartsRight l.from_block l.rolling_checkpoint) (sym (append-nil bs)) r;
      behind = inv.behind;
      idle = λ q. ground (arith, q, w);
    },
    record {
      same_checkpoint = refl;
      same_from = λ _. refl;
      same_required = refl;
      kept = k;
      waits = λ n. n;
    },
  )

  attached :
      (l : Listener)
      → Inv depth l
      → l.waiting_for_from_block ≡ false
      → l.from_block ≤ b.block_number
      → is_checkpointed l.rolling_checkpoint b.block_number ≡ false
      → Good depth l (attach_block b l)
  unfolding attach_block
  attached l inv w f g =
      if_both (Good depth l) (is_next b (dispatch_head l) l.rolling_checkpoint) _ _
        (λ e. appended l inv w f g e)
        (λ _.
          replaced l (reorg b none l.blocks_since_checkpoint) inv w
            (reorg-Replaced depth b none l.blocks_since_checkpoint on_chain
              (LinkedBlocks-first depth none l.blocks_since_checkpoint l.new_head_to_add inv.chain))
            (reorg-StartsRight l.from_block l.rolling_checkpoint b l.blocks_since_checkpoint (
              StartsRight-first l.from_block l.rolling_checkpoint l.blocks_since_checkpoint
                l.new_head_to_add inv.starts))
            (reorg-IsKept b l.blocks_since_checkpoint))

  tapped : (l l' : Listener) → Good depth l l' → Good depth l (record l' { tapped = true })
  tapped l l' (inv, k) = (
    record { chain = inv.chain; starts = inv.starts; behind = inv.behind; idle = inv.idle },
    record {
      same_checkpoint = k.same_checkpoint;
      same_from = k.same_from;
      same_required = k.same_required;
      kept = k.kept;
      waits = k.waits;
    },
  )

  taken :
      (l : Listener)
      → Inv depth l
      → l.waiting_for_from_block ≡ false
      → l.from_block ≤ b.block_number
      → is_checkpointed l.rolling_checkpoint b.block_number ≡ false
      → Good depth l (take_block b l)
  unfolding take_block
  taken l inv w f g =
      if_both (Good depth l) (fell_behind l) _ _ (λ _. unchanged l inv)
        (λ _. tapped l (attach_block b l) (attached l inv w f g))

  settled_now :
      (l : Listener)
      → Inv depth l
      → l.waiting_for_from_block ≡ true
      → Good depth l (record l { from_block = b.block_number; waiting_for_from_block = false })
  settled_now l inv w =
      let (c, bs, hs) = inv.idle w in
      let empty : all_blocks l ≡ [] = ap (λ (x : List BlockInfo). x ++ l.new_head_to_add) bs ∙ hs in
      (
        record {
          chain = inv.chain;
          starts = subst (StartsRight b.block_number l.rolling_checkpoint) (sym empty) tt;
          behind = subst (IsBehind b.block_number) (sym c) tt;
          idle = λ q. ground (arith, q);
        },
        record {
          same_checkpoint = refl;
          same_from = λ q. ground (arith, q, w);
          same_required = refl;
          kept = λ n. n;
          waits = λ q. ground (arith, q);
        },
      )

  Good-trans :
      (l m n : Listener)
      → Good depth l m
      → m.waiting_for_from_block ≡ false
      → Good depth m n
      → (l.waiting_for_from_block ≡ false → m.from_block ≡ l.from_block)
      → Good depth l n
  Good-trans l m n (i, h) w (j, k) q = (
    j,
    record {
      same_checkpoint = k.same_checkpoint ∙ h.same_checkpoint;
      same_from = λ e. k.same_from w ∙ q e;
      same_required = k.same_required ∙ h.same_required;
      kept = λ e. h.kept (k.kept e);
      waits = λ e. h.waits (k.waits e);
    },
  )

  -- The listener once it knows where to start.
  record Settled (l m : Listener) : Type 0 where
    good : Good depth l m
    ready : m.waiting_for_from_block ≡ false
    after_start : is_ignored b l ≡ false → m.from_block ≤ b.block_number
    unseen : is_ignored b l ≡ false → is_checkpointed m.rolling_checkpoint b.block_number ≡ false
    stays : l.waiting_for_from_block ≡ false → m.from_block ≡ l.from_block

  settle-Settled : (l : Listener) → Inv depth l → Settled l (settle b l)
  unfolding settle is_ignored
  settle-Settled l inv =
      if_both (Settled l) l.waiting_for_from_block _ _
        (λ w. record {
          good = settled_now l inv w;
          ready = refl;
          after_start = λ _. omega arith;
          unseen = λ e. ground (arith, e);
          stays = λ q. ground (arith, q, w);
        })
        (λ w. record {
          good = unchanged l inv;
          ready = w;
          after_start = λ e. ground (arith, e, w);
          unseen = λ e. ground (arith, e);
          stays = λ _. refl;
        })

  -- A notification keeps the invariant.
  pub process_block_notification-Good :
      (l : Listener) → Inv depth l → Good depth l (process_block_notification b l)
  unfolding process_block_notification
  process_block_notification-Good l inv =
      let m = settle b l in
      let k = settle-Settled l inv in
      if_both (Good depth l) (is_ignored b l) _ _ (λ _. k.good)
        (λ e.
          Good-trans l m (take_block b m) k.good k.ready
            (taken m k.good.0 k.ready (k.after_start e) (k.unseen e)) k.stays)
