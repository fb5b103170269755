-- ===== src/Confirmations/Walk/Linked.antt =====
-- Confirmations that are linked by their hashes.
use firefly_transaction_mana.Prelude.{String, ◌≡◌, refl, List, [], ◌∷◌, ◌++◌}
use firefly_transaction_mana.Handler.{Confirmation}

-- Each confirmation's parent is the one before it, and the first one's is `parent`.
pub data Linked : String → List Confirmation → Type 0 where
  linked_nil : {parent : String} → Linked parent []
  linked_cons :
      {parent : String} {c : Confirmation} {cs : List Confirmation}
      → c.parent_hash ≡ parent
      → Linked c.block_hash cs
      → Linked parent (c ∷ cs)

-- The hash that the next confirmation has as its parent.
abbrev pub tip : String → List Confirmation → String
tip parent [] = parent
tip parent (c ∷ cs) = tip c.block_hash cs

pub Linked-append :
    (parent : String) (cs : List Confirmation) (c : Confirmation)
    → Linked parent cs
    → c.parent_hash ≡ tip parent cs
    → Linked parent (cs ++ c ∷ [])
Linked-append parent [] c linked_nil e = linked_cons e linked_nil
Linked-append parent (d ∷ cs) c (linked_cons f h) e =
    linked_cons f (Linked-append d.block_hash cs c h e)

pub tip-append :
    (parent : String) (cs : List Confirmation) (c : Confirmation)
    → tip parent (cs ++ c ∷ []) ≡ c.block_hash
tip-append parent [] c = refl
tip-append parent (d ∷ cs) c = tip-append d.block_hash cs c
