-- ===== src/Events/Config/Changed.antt =====
-- Which changes of a configuration a merge reports.
use firefly_transaction_mana.Prelude.{
  ℕ, String, ◌≡◌, refl, Bool, false, Option, none, some, ◌⊎◌, inl, inr, Option-cases, str_eq,
  if_both,
}
use mathlib.Core.Path.{subst}
use firefly_transaction_mana.Events.Config.{
  EsDefaults, EsSpec, no_webhook, MergeResult, merged, merge_error, check_update_string,
}
use firefly_transaction_mana.Events.Config.Merge.{
  merge_webhook, merge_validate_wh_config, id_and_created, name_or_error, TypeConfig, Settings,
  merge_settings, whole_spec, merge_named, merge_with_id, merge_validate_es_config,
}
use firefly_transaction_mana.Events.Config.Settled.{num_same, bool_eq_refl}
use firefly_transaction_mana.Events.Config.Unchanged.{
  update_unchanged, text_eq, HasSettings, settings_unchanged, SameWebSocket, KeptType,
  type_unchanged,
}

-- An update of the URL of a webhook, without headers, is not reported as a change, nor is anything
-- that was changed before it.
pub webhook_change_forgotten :
    (d : EsDefaults) (changed : Bool) (url new_url : String) (headers : Option String) (skip : Bool)
    (timeout : ℕ)
    → str_eq new_url "" ≡ false
    → merge_validate_wh_config d changed
        (some (record {
          url = some url;
          headers = headers;
          tls_skip_host_verify = some skip;
          request_timeout = some timeout;
          eth_compat_request_timeout_sec = none;
        }))
        (some (record no_webhook { url = some new_url }))
      ≡ merged
          (record {
            url = some new_url;
            headers = headers;
            tls_skip_host_verify = some skip;
            request_timeout = some timeout;
            eth_compat_request_timeout_sec = none;
          })
          false
unfolding merge_validate_wh_config merge_webhook
webhook_change_forgotten d changed url new_url headers skip timeout h =
    rw (h, bool_eq_refl skip, num_same timeout)

-- The ID and the time of creation are the same, unless one of them was missing.
pub data SameId (a b : EsSpec) : Type 0 where
  same_id : a.id ≡ b.id → a.created ≡ b.created → SameId a b
  was_missing : (a.id ≡ none) ⊎ (a.created ≡ none) → SameId a b

-- Two configurations are the same, but for the time of the update.
pub record SameConfig (a b : EsSpec) : Type 0 where
  pub identity : SameId a b
  pub web_socket : SameWebSocket a.web_socket b.web_socket
  pub name : a.name ≡ b.name
  pub type : a.type ≡ b.type
  pub suspended : a.suspended ≡ b.suspended
  pub batch_size : a.batch_size ≡ b.batch_size
  pub error_handling : a.error_handling ≡ b.error_handling
  pub batch_timeout : a.batch_timeout ≡ b.batch_timeout
  pub retry_timeout : a.retry_timeout ≡ b.retry_timeout
  pub blocked_retry_delay : a.blocked_retry_delay ≡ b.blocked_retry_delay

abbrev KeptId : EsSpec → Option (String × ℕ) → Type 0
KeptId b none = Unit {0}
KeptId b (some (i, c)) =
    ((b.id ≡ some i) × (b.created ≡ some c)) ⊎ ((b.id ≡ none) ⊎ (b.created ≡ none))

id_and_created-KeptId :
    (now : ℕ) (u b : EsSpec) (oc : Option ℕ) (oi : Option String)
    → b.created ≡ oc
    → b.id ≡ oi
    → KeptId b (id_and_created now u oc oi)
id_and_created-KeptId now u b (some c) (some i) e f = inl (f, e)
id_and_created-KeptId now u b none oi e f = elim (Option-cases u.id) [
  | inl g ↦ rw (g) tt
  | inr (i, g) ↦ rw (g) (inr (inr e))
]
id_and_created-KeptId now u b (some c) none e f = elim (Option-cases u.id) [
  | inl g ↦ rw (g) tt
  | inr (i, g) ↦ rw (g) (inr (inl f))
]

abbrev KeptSpec : EsSpec → MergeResult EsSpec → Type 0
KeptSpec b (merge_error e) = Unit {0}
KeptSpec b (merged m c) = c ≡ false → m.webhook ≡ none → SameConfig b m

module _ (now : ℕ) (b : EsSpec) where
  whole-KeptSpec :
      (i : String × ℕ) (name : String) (s : Settings) (c : Bool) (r : MergeResult TypeConfig)
      → KeptId b (some i)
      → (c ≡ false → (b.name ≡ some name) × HasSettings b s)
      → KeptType b c r
      → KeptSpec b (whole_spec now i name s r)
  whole-KeptSpec i name s c (merge_error e) g h k = tt
  whole-KeptSpec i name s c (merged t c') g h k = λ e w.
      let kept = h (k e w).0 in
      record {
        identity = elim g [ inl (f, l) ↦ same_id f l | inr f ↦ was_missing f ];
        web_socket = (k e w).2;
        name = kept.0;
        type = (k e w).1;
        suspended = kept.1.suspended;
        batch_size = kept.1.batch_size;
        error_handling = kept.1.error_handling;
        batch_timeout = kept.1.batch_timeout;
        retry_timeout = kept.1.retry_timeout;
        blocked_retry_delay = kept.1.blocked_retry_delay;
      }

  named-KeptSpec :
      (d : EsDefaults) (u : EsSpec) (i : String × ℕ) (name : String) (changed : Bool)
      → KeptId b (some i)
      → (changed ≡ false → b.name ≡ some name)
      → KeptSpec b (merge_named false d now b u i (some (name, changed)))
  unfolding merge_named
  named-KeptSpec d u i name changed g h =
      let s = merge_settings d changed b u in
      whole-KeptSpec i name s.0 s.1 _ g
        (λ e. let kept = settings_unchanged d changed b u e in (h kept.0, kept.1))
        (type_unchanged d s.1 b u)

  nameless-KeptSpec :
      (d : EsDefaults) (u : EsSpec) (i : String × ℕ)
      → KeptSpec b (merge_named false d now b u i none)
  unfolding merge_named
  nameless-KeptSpec d u i = tt

  with_id-KeptSpec :
      (d : EsDefaults) (u : EsSpec) (o : Option (String × ℕ))
      → KeptId b o
      → KeptSpec b (merge_with_id false d now b u o)
  unfolding merge_with_id name_or_error
  with_id-KeptSpec d u none g = tt
  with_id-KeptSpec d u (some i) g =
      let name = check_update_string false b.name u.name "" in
      if_both (λ (o : Option (String × Bool)). KeptSpec b (merge_named false d now b u i o))
        (str_eq name.0 "") _ _ (λ _. nameless-KeptSpec d u i)
        (λ _.
          named-KeptSpec d u i name.0 name.1 g
            (λ e. (update_unchanged str_eq text_eq false b.name u.name "" e).1))

-- A merge that reports no change, of a stream that the API does not manage, and gives one with no
-- webhook, has kept the name, the type and all the settings; it has kept the websocket settings, but
-- for the older name of load_balance, which is migrated unreported; and it has kept the ID and the
-- time of creation, unless one of them was missing.
pub unreported_same :
    (d : EsDefaults) (now : ℕ) (base updates m : EsSpec)
    → merge_validate_es_config false d now (some base) updates ≡ merged m false
    → m.webhook ≡ none
    → SameConfig base m
unfolding merge_validate_es_config
unreported_same d now base updates m h w =
    subst (KeptSpec base) h
      (with_id-KeptSpec now base d updates (id_and_created now updates base.created base.id)
        (id_and_created-KeptId now updates base base.created base.id refl refl))
      refl w
