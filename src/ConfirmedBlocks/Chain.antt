-- ===== src/ConfirmedBlocks/Chain.antt =====
-- Lists of blocks that are linked by their hashes, and what the operations of the listener do to
-- them.
use firefly_transaction_mana.Prelude.{
  ℕ, suc, ◌≤◌, ◌<◌, String, ◌≡◌, ◌∙◌, refl, sym, ap, Bool, true, false, Option, none, some, List,
  [], ◌∷◌, ◌++◌, ◌==◌, eq_iff, arith, if◌then◌else◌, if_both, or_else,
}
use firefly_transaction_mana.Confirmations.{BlockInfo}
use firefly_transaction_mana.ConfirmedBlocks.{last}
use firefly_transaction_mana.ConfirmedBlocks.Notified.{or_last, stands_on, after_first, reorg}
use firefly_transaction_mana.ConfirmedBlocks.Dispatcher.{drop_last}

-- `depth` counts the blocks up to the one with a hash, and a block stands right after its parent;
-- a number fits into 64 bits.
abbrev pub OnChain : (String → ℕ) → BlockInfo → Type 0
OnChain depth b =
    (depth b.block_hash ≡ suc b.block_number)
    × (depth b.parent_hash ≡ b.block_number)
    × (b.block_number < 18446744073709551615)

-- The first block stands on `previous`, if there is one, and each other block on the one before.
abbrev pub LinkedBlocks : (String → ℕ) → Option BlockInfo → List BlockInfo → Type 0
LinkedBlocks depth previous [] = Unit {0}
LinkedBlocks depth previous (b ∷ bs) =
    (stands_on previous b ≡ true) × OnChain depth b × LinkedBlocks depth (some b) bs

-- The first number is right after the checkpoint, or not before the start.
abbrev pub IsFirst : ℕ → Option ℕ → ℕ → Type 0
IsFirst from none n = from ≤ n
IsFirst from (some c) n = n ≡ suc c

abbrev pub StartsRight : ℕ → Option ℕ → List BlockInfo → Type 0
StartsRight from checkpoint [] = Unit {0}
StartsRight from checkpoint (b ∷ bs) = IsFirst from checkpoint b.block_number

-- The last block, or the one before the list.
abbrev pub tip : Option BlockInfo → List BlockInfo → Option BlockInfo
tip previous [] = previous
tip previous (b ∷ bs) = tip (some b) bs

module _ (depth : String → ℕ) where
  pub number-stands_on :
      (p b : BlockInfo)
      → OnChain depth p
      → OnChain depth b
      → stands_on (some p) b ≡ true
      → b.block_number ≡ suc p.block_number
  number-stands_on p b (dp, ep, lp) (db, eb, lb) h =
      sym eb ∙ ap depth ((eq_iff b.parent_hash p.block_hash).0 h) ∙ dp

  pub LinkedBlocks-append :
      (previous : Option BlockInfo) (xs ys : List BlockInfo)
      → LinkedBlocks depth previous xs
      → LinkedBlocks depth (tip previous xs) ys
      → LinkedBlocks depth previous (xs ++ ys)
  LinkedBlocks-append previous [] ys h k = k
  LinkedBlocks-append previous (x ∷ xs) ys h k =
      (h.0, h.1, LinkedBlocks-append (some x) xs ys h.2 k)

  pub LinkedBlocks-first :
      (previous : Option BlockInfo) (xs ys : List BlockInfo)
      → LinkedBlocks depth previous (xs ++ ys)
      → LinkedBlocks depth previous xs
  LinkedBlocks-first previous [] ys h = tt
  LinkedBlocks-first previous (x ∷ xs) ys h = (h.0, h.1, LinkedBlocks-first (some x) xs ys h.2)

  pub LinkedBlocks-drop_last :
      (previous : Option BlockInfo) (xs : List BlockInfo)
      → LinkedBlocks depth previous xs
      → LinkedBlocks depth previous (drop_last xs)
  LinkedBlocks-drop_last previous [] h = tt
  LinkedBlocks-drop_last previous (x ∷ []) h = tt
  LinkedBlocks-drop_last previous (x ∷ y ∷ xs) h =
      (h.0, h.1, LinkedBlocks-drop_last (some x) (y ∷ xs) h.2)

  -- A list with no block before its first is linked after no block.
  pub LinkedBlocks-free :
      (previous : Option BlockInfo) (xs : List BlockInfo)
      → LinkedBlocks depth previous xs
      → LinkedBlocks depth none xs
  LinkedBlocks-free previous [] h = tt
  LinkedBlocks-free previous (x ∷ xs) h = (refl, h.1, h.2)

  -- A new list after a block was replaced.
  abbrev pub Replaced : Option BlockInfo → List BlockInfo → Option (List BlockInfo) → Type 0
  Replaced previous es none = Unit {0}
  Replaced previous es (some bs) = LinkedBlocks depth previous bs

  Replaced-after_first :
      (previous : Option BlockInfo) (e : BlockInfo) (es : List BlockInfo)
      (o : Option (List BlockInfo))
      → LinkedBlocks depth previous (e ∷ es)
      → Replaced (some e) es o
      → Replaced previous (e ∷ es) (after_first e o)
  Replaced-after_first previous e es none h k = tt
  Replaced-after_first previous e es (some bs) h k = (h.0, h.1, k)

  kept_if :
      (previous : Option BlockInfo) (b : BlockInfo) (t : Bool)
      → stands_on previous b ≡ t
      → OnChain depth b
      → LinkedBlocks depth previous (if t then b ∷ [] else [])
  kept_if previous b true e c = (e, c, tt)
  kept_if previous b false e c = tt

  pub reorg-Replaced :
      (b : BlockInfo) (previous : Option BlockInfo) (es : List BlockInfo)
      → OnChain depth b
      → LinkedBlocks depth previous es
      → Replaced previous es (reorg b previous es)
  unfolding reorg
  reorg-Replaced b previous [] c h = tt
  reorg-Replaced b previous (e ∷ es) c h =
      if_both (Replaced previous (e ∷ es)) (e.block_number == b.block_number) _ _
        (λ _. kept_if previous b (stands_on previous b) refl c)
        (λ _.
          Replaced-after_first previous e es (reorg b (some e) es) h
            (reorg-Replaced b (some e) es c h.2))

pub last-tip : (xs : List BlockInfo) → last xs ≡ tip none xs
last-tip [] = refl
last-tip (x ∷ []) = refl
last-tip (x ∷ y ∷ xs) = last-tip (y ∷ xs)

pub tip-append :
    (previous : Option BlockInfo) (xs ys : List BlockInfo)
    → tip previous (xs ++ ys) ≡ tip (tip previous xs) ys
tip-append previous [] ys = refl
tip-append previous (x ∷ xs) ys = tip-append (some x) xs ys

tip-or_last :
    (previous : Option BlockInfo) (ys : List BlockInfo)
    → tip previous ys ≡ or_else (last ys) previous
tip-or_last previous [] = refl
tip-or_last previous (y ∷ []) = refl
tip-or_last previous (y ∷ z ∷ ys) = tip-or_last (some y) (z ∷ ys) ∙ last_some (some y) previous z ys
  where
    last_some :
        (p q : Option BlockInfo) (z : BlockInfo) (ys : List BlockInfo)
        → or_else (last (z ∷ ys)) p ≡ or_else (last (z ∷ ys)) q
    last_some p q z [] = refl
    last_some p q z (y ∷ ys) = last_some p q y ys

or_last_lem : (o : Option BlockInfo) (xs : List BlockInfo) → or_last o xs ≡ or_else o (last xs)
or_last_lem none xs = refl
or_last_lem (some b) xs = refl

-- The head that a new block is compared with is the last of the whole chain.
pub dispatch_head-tip : (xs ys : List BlockInfo) → or_last (last ys) xs ≡ tip none (xs ++ ys)
dispatch_head-tip xs ys =
    or_last_lem (last ys) xs
    ∙ ap (or_else (last ys)) (last-tip xs)
    ∙ sym (tip-or_last (tip none xs) ys)
    ∙ sym (tip-append none xs ys)

-- What starts a list stays when the list is cut behind, or its first block is replaced.
pub StartsRight-first :
    (from : ℕ) (c : Option ℕ) (xs ys : List BlockInfo)
    → StartsRight from c (xs ++ ys)
    → StartsRight from c xs
StartsRight-first from c [] ys h = tt
StartsRight-first from c (x ∷ xs) ys h = h

pub StartsRight-drop_last :
    (from : ℕ) (c : Option ℕ) (xs : List BlockInfo)
    → StartsRight from c xs
    → StartsRight from c (drop_last xs)
StartsRight-drop_last from c [] h = tt
StartsRight-drop_last from c (x ∷ []) h = tt
StartsRight-drop_last from c (x ∷ y ∷ xs) h = h

abbrev pub StartsRightIf : ℕ → Option ℕ → Option (List BlockInfo) → Type 0
StartsRightIf from c none = Unit {0}
StartsRightIf from c (some bs) = StartsRight from c bs

StartsRight-after_first :
    (from : ℕ) (c : Option ℕ) (e : BlockInfo) (o : Option (List BlockInfo))
    → IsFirst from c e.block_number
    → StartsRightIf from c (after_first e o)
StartsRight-after_first from c e none h = tt
StartsRight-after_first from c e (some bs) h = h

IsFirst-same :
    (from : ℕ) (c : Option ℕ) (n m : ℕ) → (n == m) ≡ true → IsFirst from c n → IsFirst from c m
IsFirst-same from none n m e h = ground (arith, e, h)
IsFirst-same from (some k) n m e h = ground (arith, e, h)

pub reorg-StartsRight :
    (from : ℕ) (c : Option ℕ) (b : BlockInfo) (es : List BlockInfo)
    → StartsRight from c es
    → StartsRightIf from c (reorg b none es)
unfolding reorg
reorg-StartsRight from c b [] h = tt
reorg-StartsRight from c b (e ∷ es) h =
    if_both (StartsRightIf from c) (e.block_number == b.block_number) _ _
      (λ q. IsFirst-same from c e.block_number b.block_number q h)
      (λ _. StartsRight-after_first from c e (reorg b (some e) es) h)

-- A list is not emptied by a block that replaces one of its own.
abbrev pub IsKept : List BlockInfo → Option (List BlockInfo) → Type 0
IsKept es none = Unit {0}
IsKept es (some bs) = (bs ≡ []) → es ≡ []

no_cons : {A : Type 0} {b : BlockInfo} {bs : List BlockInfo} → (b ∷ bs) ≡ [] → A
no_cons {A} {b} {bs} e = absurd (cc)

pub reorg-IsKept : (b : BlockInfo) (es : List BlockInfo) → IsKept es (reorg b none es)
unfolding reorg
reorg-IsKept b [] = tt
reorg-IsKept b (e ∷ es) =
    if_both (IsKept (e ∷ es)) (e.block_number == b.block_number) _ _ (λ _ n. no_cons n)
      (λ _. kept_first e es (reorg b (some e) es))
  where
    kept_first :
        (e : BlockInfo) (es : List BlockInfo) (o : Option (List BlockInfo))
        → IsKept (e ∷ es) (after_first e o)
    kept_first e es none = tt
    kept_first e es (some bs) = λ n. no_cons n
