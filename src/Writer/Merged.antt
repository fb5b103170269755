-- ===== src/Writer/Merged.antt =====
-- The merged update of a transaction stands for its updates one by one.
use firefly_transaction_mana.Prelude.{
  ℕ, String, ◌≡◌, ◌∙◌, refl, sym, ap, true, false, Option, none, some, List, [], ◌∷◌, str_eq,
  eq_iff, if◌then◌else◌, Bool-cases, inl, inr,
}
use mathlib.Core.Path.{subst}
use firefly_transaction_mana.Tx.{ManagedTx, TxUpdates}
use firefly_transaction_mana.Tx.Updates.{merge, apply_updates}
use firefly_transaction_mana.Tx.Laws.{apply_updates-merge}
use firefly_transaction_mana.Writer.{UpdateOp, Merges, merge_one, merge_from, merge_tx_updates}

unfoldable pub find_update : String → Merges → Option TxUpdates
find_update id [] = none
find_update id ((k, v) ∷ ms) = if str_eq k id then some v else find_update id ms

-- The updates of a transaction, in their order.
abbrev pub updates_of : String → List UpdateOp → List TxUpdates
updates_of id [] = []
updates_of id (x ∷ xs) =
    if str_eq x.tx_id id then x.tx_update ∷ updates_of id xs else updates_of id xs

-- The updates stored one by one, at the time `t`, and the last at `now`.
unfoldable pub apply_each : ManagedTx → ℕ → ℕ → List TxUpdates → ManagedTx
apply_each tx t now [] = tx
apply_each tx t now (u ∷ []) = apply_updates tx u now
apply_each tx t now (u ∷ v ∷ us) = apply_each (apply_updates tx u t) t now (v ∷ us)

abbrev pub apply_found : ManagedTx → ℕ → Option TxUpdates → ManagedTx
apply_found tx now none = tx
apply_found tx now (some u) = apply_updates tx u now

abbrev and_found : Option TxUpdates → List TxUpdates → List TxUpdates
and_found none us = us
and_found (some v) us = v ∷ us

abbrev merged_with : Option TxUpdates → TxUpdates → TxUpdates
merged_with none u = u
merged_with (some v) u = merge v u

find-merge_one_own :
    (id k : String) (u : TxUpdates) (ms : Merges)
    → str_eq k id ≡ true
    → find_update id (merge_one k u ms) ≡ some (merged_with (find_update id ms) u)
unfolding find_update merge_one
find-merge_one_own id k u [] h = rw (h) refl
find-merge_one_own id k u ((j, v) ∷ ms) h = elim (Bool-cases (str_eq j k)) [
  | inl e ↦ rw (e, same j id e h) refl
  | inr e ↦ rw (e, other j e) (find-merge_one_own id k u ms h)
]
  where
    true_false : true ≡ false → ⊥
    true_false t = absurd cc

    same : (j i : String) → str_eq j k ≡ true → str_eq k i ≡ true → str_eq j i ≡ true
    same j i a b = (eq_iff j i).1 ((eq_iff j k).0 a ∙ (eq_iff k i).0 b)

    other : (j : String) → str_eq j k ≡ false → str_eq j id ≡ false
    other j e = elim (Bool-cases (str_eq j id)) [
      | inl f ↦
          absurd
            (true_false (sym ((eq_iff j k).1 ((eq_iff j id).0 f ∙ sym ((eq_iff k id).0 h))) ∙ e))
      | inr f ↦ f
    ]

find-merge_one_other :
    (id k : String) (u : TxUpdates) (ms : Merges)
    → str_eq k id ≡ false
    → find_update id (merge_one k u ms) ≡ find_update id ms
unfolding find_update merge_one
find-merge_one_other id k u [] h = rw (h) refl
find-merge_one_other id k u ((j, v) ∷ ms) h = elim (Bool-cases (str_eq j k)) [
  | inl e ↦ rw (e, differs e) refl
  | inr e ↦ rw (e) (elim (Bool-cases (str_eq j id)) [
    | inl f ↦ rw (f) refl
    | inr f ↦ rw (f) (find-merge_one_other id k u ms h)
  ])
]
  where
    differs : str_eq j k ≡ true → str_eq j id ≡ false
    differs e = subst (λ (i : String). str_eq i id ≡ false) (sym ((eq_iff j k).0 e)) h

merged_first :
    (tx : ManagedTx) (t now : ℕ) (v u : TxUpdates) (us : List TxUpdates)
    → apply_each tx t now (merge v u ∷ us) ≡ apply_each tx t now (v ∷ u ∷ us)
unfolding apply_each
merged_first tx t now v u [] = apply_updates-merge tx v u t now
merged_first tx t now v u (w ∷ us) =
    ap (λ (x : ManagedTx). apply_each x t now (w ∷ us)) (apply_updates-merge tx v u t t)

one_more :
    (tx : ManagedTx) (t now : ℕ) (o : Option TxUpdates) (u : TxUpdates) (us : List TxUpdates)
    → apply_each tx t now (merged_with o u ∷ us) ≡ apply_each tx t now (and_found o (u ∷ us))
one_more tx t now none u us = refl
one_more tx t now (some v) u us = merged_first tx t now v u us

found_only :
    (tx : ManagedTx) (t now : ℕ) (o : Option TxUpdates)
    → apply_found tx now o ≡ apply_each tx t now (and_found o [])
unfolding apply_each
found_only tx t now none = refl
found_only tx t now (some v) = refl

merge_from-apply_each :
    (id : String) (tx : ManagedTx) (t now : ℕ) (ms : Merges) (xs : List UpdateOp)
    → apply_found tx now (find_update id (merge_from ms xs))
      ≡ apply_each tx t now (and_found (find_update id ms) (updates_of id xs))
unfolding merge_from
merge_from-apply_each id tx t now ms [] = found_only tx t now (find_update id ms)
merge_from-apply_each id tx t now ms (x ∷ xs) =
    merge_from-apply_each id tx t now (merge_one x.tx_id x.tx_update ms) xs
    ∙ elim (Bool-cases (str_eq x.tx_id id)) [
      | inl e ↦
          ap (λ (o : Option TxUpdates). apply_each tx t now (and_found o (updates_of id xs)))
            (find-merge_one_own id x.tx_id x.tx_update ms e)
          ∙ one_more tx t now (find_update id ms) x.tx_update (updates_of id xs)
          ∙ ap (λ (us : List TxUpdates). apply_each tx t now (and_found (find_update id ms) us))
              (sym (own_first e))
      | inr e ↦
          ap (λ (o : Option TxUpdates). apply_each tx t now (and_found o (updates_of id xs)))
            (find-merge_one_other id x.tx_id x.tx_update ms e)
          ∙ ap (λ (us : List TxUpdates). apply_each tx t now (and_found (find_update id ms) us))
              (sym (skipped e))
    ]
  where
    own_first : str_eq x.tx_id id ≡ true → updates_of id (x ∷ xs) ≡ x.tx_update ∷ updates_of id xs
    own_first e = rw (e) refl

    skipped : str_eq x.tx_id id ≡ false → updates_of id (x ∷ xs) ≡ updates_of id xs
    skipped e = rw (e) refl

-- The one update that a batch writes for a transaction leaves the record that its updates in the
-- batch leave, stored one by one in their order, the last of them at the time of the batch; a
-- transaction that the batch does not update stays as it is.
pub merge_tx_updates-apply_each :
    (id : String) (tx : ManagedTx) (t now : ℕ) (xs : List UpdateOp)
    → apply_found tx now (find_update id (merge_tx_updates xs).1)
      ≡ apply_each tx t now (updates_of id xs)
unfolding merge_tx_updates find_update
merge_tx_updates-apply_each id tx t now xs = merge_from-apply_each id tx t now [] xs
