-- ===== src/ConfirmedBlocks/Notified.antt =====
-- internal/confirmations/confirmed_block_listener.go: processBlockNotification.
use firefly_transaction_mana.Prelude.{
  ℕ, Bool, true, false, not, Option, none, some, List, [], ◌∷◌, ◌++◌, ◌&&◌, ◌||◌, ltb, leb, ◌==◌,
  length, str_eq, if◌then◌else◌,
}
use firefly_transaction_mana.Confirmations.{BlockInfo, next_number}
use firefly_transaction_mana.Confirmations.Blocks.{Got, got}
use firefly_transaction_mana.ConfirmedBlocks.{Listener, last}

abbrev pub is_checkpointed : Option ℕ → ℕ → Bool
is_checkpointed none n = false
is_checkpointed (some c) n = leb n c

-- The first notification says where to start, where that is awaited.
unfoldable pub settle : BlockInfo → Listener → Listener
settle b l =
    if l.waiting_for_from_block
    then record l { from_block = b.block_number; waiting_for_from_block = false }
    else l

-- A block before the start, or before the checkpoint.
unfoldable pub is_ignored : BlockInfo → Listener → Bool
is_ignored b l =
    not l.waiting_for_from_block && ltb b.block_number l.from_block
    || is_checkpointed l.rolling_checkpoint b.block_number

abbrev pub or_last : Option BlockInfo → List BlockInfo → Option BlockInfo
or_last none bs = last bs
or_last (some b) bs = some b

-- The block that a new one may stand on.
unfoldable pub dispatch_head : Listener → Option BlockInfo
dispatch_head l = or_last (last l.new_head_to_add) l.blocks_since_checkpoint

-- The notifications have run too far ahead of the dispatcher.
unfoldable pub fell_behind : Listener → Bool
fell_behind l = leb 10 (length l.new_head_to_add)

abbrev pub is_awaited : Option ℕ → ℕ → Bool
is_awaited none n = true
is_awaited (some c) n = n == next_number c

-- The block is passed to the dispatcher at once.
unfoldable pub is_next : BlockInfo → Option BlockInfo → Option ℕ → Bool
is_next b none checkpoint = is_awaited checkpoint b.block_number
is_next b (some h) checkpoint =
    b.block_number == next_number h.block_number && str_eq b.parent_hash h.block_hash

abbrev pub stands_on : Option BlockInfo → BlockInfo → Bool
stands_on none b = true
stands_on (some p) b = str_eq b.parent_hash p.block_hash

abbrev pub after_first : BlockInfo → Option (List BlockInfo) → Option (List BlockInfo)
after_first e none = none
after_first e (some bs) = some (e ∷ bs)

-- A block of the same number is replaced, and all after it are discarded; `previous` is the one
-- before, which the new block has to stand on to be kept itself.
unfoldable pub reorg : BlockInfo → Option BlockInfo → List BlockInfo → Option (List BlockInfo)
reorg b previous [] = none
reorg b previous (e ∷ es) =
    let rest = reorg b (some e) es in
    if e.block_number == b.block_number
    then some (if stands_on previous b then b ∷ [] else [])
    else after_first e rest

abbrev pub reorganized : Option (List BlockInfo) → Listener → Listener
reorganized none l = l
reorganized (some bs) l = record l { blocks_since_checkpoint = bs; new_head_to_add = [] }

unfoldable pub attach_block : BlockInfo → Listener → Listener
unfolding is_next dispatch_head reorg
attach_block b l =
    if is_next b (dispatch_head l) l.rolling_checkpoint
    then record l { new_head_to_add = l.new_head_to_add ++ b ∷ [] }
    else reorganized (reorg b none l.blocks_since_checkpoint) l

unfoldable pub take_block : BlockInfo → Listener → Listener
unfolding fell_behind attach_block
take_block b l = if fell_behind l then l else record (attach_block b l) { tapped = true }

unfoldable pub process_block_notification : BlockInfo → Listener → Listener
unfolding settle is_ignored take_block
process_block_notification b l = if is_ignored b l then settle b l else take_block b (settle b l)

-- `processBlockHashes`, by what the connector answers for each of the hashes.
unfoldable pub process_hashes : List Got → Listener → Listener
unfolding process_block_notification
process_hashes [] l = l
process_hashes (got (some b) ∷ gs) l = process_hashes gs (process_block_notification b l)
process_hashes (_ ∷ gs) l = process_hashes gs l
