-- ===== src/Tx/External/Effect.antt =====
-- What each of the six assignments of `ApplyExternalTxUpdates` does, and all of them together.
use firefly_transaction_mana.Prelude.{
  ℕ, String, ◌≡◌, ◌∙◌, refl, sym, ap, false, not, Option, none, some, [], ℤ, eq_of_int_eq, str_eq,
  eq_iff, arith, Bool-cases, inl, inr, get_or, or_else, if_both, if◌then◌else◌,
}
use firefly_transaction_mana.Tx.{ManagedTx, TxUpdatesExternal, no_updates}
use firefly_transaction_mana.Tx.Updates.{apply_updates}
use firefly_transaction_mana.Tx.External.{
  Applied, int_differs, json_differs, apply_to, apply_nonce, apply_gas, apply_value,
  apply_gas_price, apply_transaction_data, apply_external_tx_updates,
}

str_differs_not : (a b : String) → not (str_eq a b) ≡ false → a ≡ b
str_differs_not a b h = ground (arith, eq_iff a b)

int_differs_not : (o : Option ℤ) (n : ℤ) → int_differs o n ≡ false → o ≡ some n
int_differs_not none n h = ground arith
int_differs_not (some m) n h = ground (arith, eq_of_int_eq m n)

-- The record that is stored for `base` when the updates of `a` are, is the one that `a` holds.
abbrev pub Stored : ManagedTx → ℕ → Applied → Type 0
Stored base now a = apply_updates base a.tx_updates now ≡ record a.mtx { updated = some now }

-- A step from `a` to `b` that leaves the transaction as `mtx`.
abbrev Steps : ManagedTx → ℕ → ManagedTx → Applied → Applied → Type 0
Steps base now mtx a b =
    (b.mtx ≡ mtx) × (Stored base now a → Stored base now b) × (b.updated ≡ false → b ≡ a)

unchanged :
    (base : ManagedTx) (now : ℕ) (mtx : ManagedTx) (a : Applied)
    → a.mtx ≡ mtx
    → Steps base now mtx a a
unchanged base now mtx a e = (e, λ h. h, λ _. refl)

Steps-trans :
    (base : ManagedTx) (now : ℕ) (f : ManagedTx → ManagedTx) {m : ManagedTx} {a b d : Applied}
    → Steps base now m a b
    → Steps base now (f b.mtx) b d
    → Steps base now (f m) a d
Steps-trans base now f s t = (
  t.0 ∙ ap f s.0,
  λ h. t.1 (s.1 h),
  λ e. t.2 e ∙ s.2 (ap (λ (x : Applied). x.updated) (sym (t.2 e)) ∙ e),
)

abbrev pub start : ManagedTx → Applied
start m = record { mtx = m; tx_updates = no_updates; updated = false; tx_update_record = [] }

module _ (big_string : ℤ → String) (json_string : String → String) where
  -- A gas price that reads the same as the present one is not stored again.
  abbrev pub new_gas_price : Option String → Option String → Option String
  new_gas_price none old = old
  new_gas_price (some p) old = if json_differs big_string json_string old p then some p else old

  -- The transaction with every field that the request sets.
  abbrev pub with_request : ManagedTx → TxUpdatesExternal → ManagedTx
  with_request m u = record m {
    to = get_or u.to m.to;
    nonce = or_else u.nonce m.nonce;
    gas = or_else u.gas m.gas;
    value = or_else u.value m.value;
    gas_price = new_gas_price u.gas_price m.gas_price;
    transaction_data = get_or u.transaction_data m.transaction_data;
  }

module _ (big_string : ℤ → String) (json_string : String → String) (base : ManagedTx)
    (now : ℕ) where
  to-Steps :
      (u : Option String) (a : Applied)
      → Steps base now
          (record a.mtx { to = get_or u a.mtx.to })
          a
          (apply_to big_string json_string u a)
  unfolding apply_to apply_updates
  to-Steps none a = unchanged base now _ a refl
  to-Steps (some t) a =
      if_both (Steps base now (record a.mtx { to = t }) a) _ _ _
        (λ _. (refl, λ h. ap (λ (m : ManagedTx). record m { to = t }) h, λ e. cc))
        (λ e.
          unchanged base now _ a
            (ap (λ (s : String). record a.mtx { to = s }) (str_differs_not _ _ e)))

  nonce-Steps :
      (u : Option ℤ) (a : Applied)
      → Steps base now
          (record a.mtx { nonce = or_else u a.mtx.nonce })
          a
          (apply_nonce big_string json_string u a)
  unfolding apply_nonce apply_updates
  nonce-Steps none a = unchanged base now _ a refl
  nonce-Steps (some t) a =
      if_both (Steps base now (record a.mtx { nonce = some t }) a) _ _ _
        (λ _. (refl, λ h. ap (λ (m : ManagedTx). record m { nonce = some t }) h, λ e. cc))
        (λ e.
          unchanged base now _ a
            (ap (λ (s : Option ℤ). record a.mtx { nonce = s }) (int_differs_not _ _ e)))

  gas-Steps :
      (u : Option ℤ) (a : Applied)
      → Steps base now
          (record a.mtx { gas = or_else u a.mtx.gas })
          a
          (apply_gas big_string json_string u a)
  unfolding apply_gas apply_updates
  gas-Steps none a = unchanged base now _ a refl
  gas-Steps (some t) a =
      if_both (Steps base now (record a.mtx { gas = some t }) a) _ _ _
        (λ _. (refl, λ h. ap (λ (m : ManagedTx). record m { gas = some t }) h, λ e. cc))
        (λ e.
          unchanged base now _ a
            (ap (λ (s : Option ℤ). record a.mtx { gas = s }) (int_differs_not _ _ e)))

  value-Steps :
      (u : Option ℤ) (a : Applied)
      → Steps base now
          (record a.mtx { value = or_else u a.mtx.value })
          a
          (apply_value big_string json_string u a)
  unfolding apply_value apply_updates
  value-Steps none a = unchanged base now _ a refl
  value-Steps (some t) a =
      if_both (Steps base now (record a.mtx { value = some t }) a) _ _ _
        (λ _. (refl, λ h. ap (λ (m : ManagedTx). record m { value = some t }) h, λ e. cc))
        (λ e.
          unchanged base now _ a
            (ap (λ (s : Option ℤ). record a.mtx { value = s }) (int_differs_not _ _ e)))

  transaction_data-Steps :
      (u : Option String) (a : Applied)
      → Steps base now
          (record a.mtx { transaction_data = get_or u a.mtx.transaction_data })
          a
          (apply_transaction_data big_string json_string u a)
  unfolding apply_transaction_data apply_updates
  transaction_data-Steps none a = unchanged base now _ a refl
  transaction_data-Steps (some t) a =
      if_both (Steps base now (record a.mtx { transaction_data = t }) a) _ _ _
        (λ _. (refl, λ h. ap (λ (m : ManagedTx). record m { transaction_data = t }) h, λ e. cc))
        (λ e.
          unchanged base now _ a
            (ap (λ (s : String). record a.mtx { transaction_data = s }) (str_differs_not _ _ e)))

  gas_price-Steps :
      (u : Option String) (a : Applied)
      → Steps base now
          (record a.mtx { gas_price = new_gas_price big_string json_string u a.mtx.gas_price })
          a
          (apply_gas_price big_string json_string u a)
  unfolding apply_gas_price apply_updates
  gas_price-Steps none a = unchanged base now _ a refl
  gas_price-Steps (some p) a =
      elim (Bool-cases (json_differs big_string json_string a.mtx.gas_price p)) [
        | inl e ↦
            rw e (refl, λ h. ap (λ (m : ManagedTx). record m { gas_price = some p }) h, λ e. cc)
        | inr e ↦ rw e (unchanged base now _ a refl)
      ]

  pub external-Steps :
      (u : TxUpdatesExternal)
      → Steps base now
          (with_request big_string json_string base u)
          (start base)
          (apply_external_tx_updates big_string json_string base u)
  unfolding apply_external_tx_updates
  external-Steps u =
      Steps-trans base now
        (λ m. record m { transaction_data = get_or u.transaction_data m.transaction_data })
        (Steps-trans base now
          (λ m. record m {
            gas_price = new_gas_price big_string json_string u.gas_price m.gas_price;
          })
          (Steps-trans base now (λ m. record m { value = or_else u.value m.value })
            (Steps-trans base now (λ m. record m { gas = or_else u.gas m.gas })
              (Steps-trans base now (λ m. record m { nonce = or_else u.nonce m.nonce })
                (to-Steps u.to (start base)) (nonce-Steps u.nonce _))
              (gas-Steps u.gas _))
            (value-Steps u.value _))
          (gas_price-Steps u.gas_price _))
        (transaction_data-Steps u.transaction_data _)
