-- ===== src/Tx/External.antt =====
-- `ApplyExternalTxUpdates` of pkg/apitypes/managed_tx.go.
pub mod Effect
use firefly_transaction_mana.Prelude.{
  String, Bool, true, false, not, Option, none, some, List, [], ◌∷◌, ◌++◌, ℤ, int_eq, str_eq,
  if◌then◌else◌,
}
use firefly_transaction_mana.Tx.{ManagedTx, TxUpdates, TxUpdatesExternal, no_updates}

pub record FieldUpdateRecord : Type 0 where
  pub old_value : Option String
  pub new_value : String

-- The transaction as it is changed in place, and the three results. The map of changed fields is
-- written once for a field, so it is the list of its entries.
pub record Applied : Type 0 where
  pub mtx : ManagedTx
  pub tx_updates : TxUpdates
  pub updated : Bool
  pub tx_update_record : List (String × FieldUpdateRecord)

-- `mtx.Nonce == nil || mtx.Nonce.Int().Cmp(..) != 0`
abbrev pub int_differs : Option ℤ → ℤ → Bool
int_differs none b = true
int_differs (some a) b = not (int_eq a b)

-- `FFBigInt.String` and `JSONAny.String` of the common library.
module _ (big_string : ℤ → String) (json_string : String → String) where
  abbrev old_string : Option ℤ → Option String
  old_string none = none
  old_string (some a) = some (big_string a)

  abbrev json_differs : Option String → String → Bool
  json_differs none b = true
  json_differs (some a) b = not (str_eq (json_string a) (json_string b))

  abbrev old_json : Option String → Option String
  old_json none = none
  old_json (some a) = some (json_string a)

  abbrev put_field : String → Option String → String → Applied → List (String × FieldUpdateRecord)
  put_field field old new a =
      a.tx_update_record ++ (field, record { old_value = old; new_value = new }) ∷ []

  pub apply_to : Option String → Applied → Applied
  apply_to none a = a
  apply_to (some to) a =
      if not (str_eq a.mtx.to to)
      then record {
        mtx = record a.mtx { to = to };
        tx_updates = record a.tx_updates { to = some to };
        updated = true;
        tx_update_record = put_field "to" (some a.mtx.to) to a;
      }
      else a

  pub apply_nonce : Option ℤ → Applied → Applied
  apply_nonce none a = a
  apply_nonce (some n) a =
      if int_differs a.mtx.nonce n
      then record {
        mtx = record a.mtx { nonce = some n };
        tx_updates = record a.tx_updates { nonce = some n };
        updated = true;
        tx_update_record = put_field "nonce" (old_string a.mtx.nonce) (big_string n) a;
      }
      else a

  pub apply_gas : Option ℤ → Applied → Applied
  apply_gas none a = a
  apply_gas (some n) a =
      if int_differs a.mtx.gas n
      then record {
        mtx = record a.mtx { gas = some n };
        tx_updates = record a.tx_updates { gas = some n };
        updated = true;
        tx_update_record = put_field "gas" (old_string a.mtx.gas) (big_string n) a;
      }
      else a

  pub apply_value : Option ℤ → Applied → Applied
  apply_value none a = a
  apply_value (some n) a =
      if int_differs a.mtx.value n
      then record {
        mtx = record a.mtx { value = some n };
        tx_updates = record a.tx_updates { value = some n };
        updated = true;
        tx_update_record = put_field "value" (old_string a.mtx.value) (big_string n) a;
      }
      else a

  pub apply_gas_price : Option String → Applied → Applied
  apply_gas_price none a = a
  apply_gas_price (some p) a =
      if json_differs a.mtx.gas_price p
      then record {
        mtx = record a.mtx { gas_price = some p };
        tx_updates = record a.tx_updates { gas_price = some p };
        updated = true;
        tx_update_record = put_field "gasPrice" (old_json a.mtx.gas_price) (json_string p) a;
      }
      else a

  pub apply_transaction_data : Option String → Applied → Applied
  apply_transaction_data none a = a
  apply_transaction_data (some d) a =
      if not (str_eq a.mtx.transaction_data d)
      then record {
        mtx = record a.mtx { transaction_data = d };
        tx_updates = record a.tx_updates { transaction_data = some d };
        updated = true;
        tx_update_record = put_field "transactionData" (some a.mtx.transaction_data) d a;
      }
      else a

  unfoldable pub apply_external_tx_updates : ManagedTx → TxUpdatesExternal → Applied
  unfolding apply_to apply_nonce apply_gas apply_value apply_gas_price apply_transaction_data
  apply_external_tx_updates mtx tx_update =
      let start : Applied = record {
        mtx = mtx;
        tx_updates = no_updates;
        updated = false;
        tx_update_record = [];
      } in
      let a1 = apply_to tx_update.to start in
      let a2 = apply_nonce tx_update.nonce a1 in
      let a3 = apply_gas tx_update.gas a2 in
      let a4 = apply_value tx_update.value a3 in
      let a5 = apply_gas_price tx_update.gas_price a4 in
      apply_transaction_data tx_update.transaction_data a5
