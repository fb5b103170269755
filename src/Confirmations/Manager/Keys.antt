-- ===== src/Confirmations/Manager/Keys.antt =====
-- Which entry of the pending items a removal removes.
use firefly_transaction_mana.Prelude.{
  ℕ, String, ◌≡◌, ◌≢◌, ◌∙◌, refl, sym, true, false, some, List, [], ◌∷◌, str_eq, eq_iff, inl, inr,
  Bool-cases, arith,
}
use firefly_transaction_mana.Confirmations.{
  PendingItem, event_item, Key, event_key, transaction_key, get_key,
}
use firefly_transaction_mana.Confirmations.Manager.{
  Manager, key_eq, find_key, delete_key, remove_item,
}

-- The hash of the block in an event's key.
abbrev hash_of : Key → String
hash_of (event_key a b c l t h) = h
hash_of (transaction_key t) = ""

hash_of-key_eq : (k k' : Key) → key_eq k k' ≡ true → hash_of k ≡ hash_of k'
hash_of-key_eq (event_key a b c l t h) (event_key a' b' c' l' t' h') e =
    (eq_iff h h').0 (ground (arith, e))
hash_of-key_eq (transaction_key t) (transaction_key t') e = refl
hash_of-key_eq (event_key a b c l t h) (transaction_key t') e = ground (arith, e)
hash_of-key_eq (transaction_key t) (event_key a b c l t' h) e = ground (arith, e)

find_key-delete_key :
    (k k' : Key) (ps : List (Key × ℕ))
    → hash_of k ≢ hash_of k'
    → find_key k (delete_key k' ps) ≡ find_key k ps
unfolding find_key delete_key
find_key-delete_key k k' [] d = refl
find_key-delete_key k k' ((j, i) ∷ ps) d =
    let rest = find_key-delete_key k k' ps d in
    elim (Bool-cases (key_eq k j)) [
      | inl e ↦ elim (Bool-cases (key_eq k' j)) [
        | inl f ↦ elim (d (hash_of-key_eq k j e ∙ sym (hash_of-key_eq k' j f))) [ ]
        | inr f ↦ ground (arith, e, f)
      ]
      | inr e ↦ elim (Bool-cases (key_eq k' j)) [
        | inl f ↦ ground (arith, e, f, rest)
        | inr f ↦ ground (arith, e, f, rest)
      ]
    ]

event_hash : (p : PendingItem) → p.p_type ≡ event_item → hash_of (get_key p) ≡ p.block_hash
unfolding get_key
event_hash p e = rw e refl

different : (a b : String) → str_eq a b ≡ false → a ≢ b
different a b h e = ground (arith, h, (eq_iff a b).1 e)

-- If the block hash of an event's item has changed since the item was added, then the removal of
-- the item leaves the entry under which it was added: the item stays pending.
pub moved_event_stays :
    (i : ℕ) (p q : PendingItem) (m : Manager)
    → p.p_type ≡ event_item
    → q.p_type ≡ event_item
    → str_eq p.block_hash q.block_hash ≡ false
    → find_key (get_key p) m.pending ≡ some i
    → find_key (get_key p) (remove_item i q m).pending ≡ some i
unfolding remove_item
moved_event_stays i p q m e f d h =
    find_key-delete_key (get_key p) (get_key q) m.pending
      (λ x. different p.block_hash q.block_hash d (sym (event_hash p e) ∙ x ∙ event_hash q f))
    ∙ h
