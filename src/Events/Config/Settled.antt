-- ===== src/Events/Config/Settled.antt =====
-- A merged configuration is complete: another merge with no updates changes nothing.
use firefly_transaction_mana.Prelude.{
  ℕ, String, ◌≡◌, ◌∙◌, refl, ap, Bool, true, false, Option, none, some, ◌||◌, ◌==◌, str_eq, eq_iff,
  get_or, arith, if_both,
}
use mathlib.Core.Path.{subst}
use firefly_transaction_mana.Events.Config.{
  bool_eq, EsDefaults, EsSpec, no_spec, WebhookConfig, no_webhook, WebSocketConfig, no_web_socket,
  MergeResult, merged, merge_error, check_update_string, check_update_enum,
}
use firefly_transaction_mana.Events.Config.Merge.{
  distribution_mode_of, web_socket_or_error, merge_validate_ws_config, merge_webhook,
  merge_validate_wh_config, id_and_created, name_or_error, TypeConfig, web_socket_type,
  webhook_type, merge_type, Settings, merge_settings, whole_spec, merge_named, merge_with_id,
  merge_validate_es_config,
}

pub str_eq_refl : (s : String) → str_eq s s ≡ true
str_eq_refl s = (eq_iff s s).1 refl

pub num_same : (n : ℕ) → (n == n) ≡ true
num_same n = ground arith

pub bool_eq_refl : (b : Bool) → bool_eq b b ≡ true
bool_eq_refl true = refl
bool_eq_refl false = refl

abbrev SettledName : Bool → String → Option (String × Bool) → Type 0
SettledName managed id none = Unit {0}
SettledName managed id (some (n, c)) = name_or_error managed id (n, false) ≡ some (n, false)

name_settled :
    (managed : Bool) (id : String) (x : String × Bool)
    → SettledName managed id (name_or_error managed id x)
unfolding name_or_error
name_settled true id x = refl
name_settled false id x = if_both (SettledName false id) (str_eq x.0 "") _ _ (λ _. tt) (λ e. rw (e))

abbrev SettledMode : Option String → Type 0
SettledMode none = Unit {0}
SettledMode (some m) = distribution_mode_of m ≡ some m

mode_settled : (x : String) → SettledMode (distribution_mode_of x)
unfolding distribution_mode_of
mode_settled x =
    if_both SettledMode (str_eq x "load_balance" || str_eq x "workloaddistribution") _ _ (λ _. refl)
      (λ e. if_both SettledMode (str_eq x "broadcast") _ _ (λ f. ground (arith, e, f)) (λ _. tt))

module _ (d : EsDefaults) where
  abbrev SettledWs : MergeResult WebSocketConfig → Type 0
  SettledWs (merge_error e) = Unit {0}
  SettledWs (merged w c) = merge_validate_ws_config d false (some w) none ≡ merged w false

  abbrev SettledWh : MergeResult WebhookConfig → Type 0
  SettledWh (merge_error e) = Unit {0}
  SettledWh (merged w c) = merge_validate_wh_config d false (some w) none ≡ merged w false

  SettledMode-ws :
      (o : Option String) (c : Bool) → SettledMode o → SettledWs (web_socket_or_error c o)
  unfolding merge_validate_ws_config
  SettledMode-ws none c h = tt
  SettledMode-ws (some m) c h = rw (str_eq_refl m, h)

  ws_settled :
      (changed : Bool) (base updates : Option WebSocketConfig)
      → SettledWs (merge_validate_ws_config d changed base updates)
  unfolding merge_validate_ws_config
  ws_settled changed base updates =
      let mode =
        check_update_enum changed (get_or base no_web_socket).distribution_mode
          (get_or updates no_web_socket).distribution_mode d.websocket_distribution_mode in
      SettledMode-ws (distribution_mode_of mode.0) mode.1 (mode_settled mode.0)

  merge_webhook_settled :
      (base updates : WebhookConfig) (u : String × Bool)
      → SettledWh (merge_webhook d base updates u)
  unfolding merge_validate_wh_config merge_webhook
  merge_webhook_settled base updates u =
      if_both SettledWh (str_eq u.0 "") _ _ (λ _. tt) (λ h. rw (h, bool_eq_refl _, num_same _))

  wh_settled :
      (changed : Bool) (base updates : Option WebhookConfig)
      → SettledWh (merge_validate_wh_config d changed base updates)
  unfolding merge_validate_wh_config
  wh_settled changed base updates =
      merge_webhook_settled (get_or base no_webhook) (get_or updates no_webhook) (
        check_update_string changed (get_or base no_webhook).url (get_or updates no_webhook).url "")

  abbrev SettledType : Bool → MergeResult TypeConfig → Type 0
  SettledType managed (merge_error e) = Unit {0}
  SettledType managed (merged t c) =
      (b : EsSpec)
      → merge_type managed d false
          (record b { type = t.type; webhook = t.webhook; web_socket = t.web_socket }) no_spec
        ≡ merged t false

  ws_type_settled :
      (r : MergeResult WebSocketConfig) → SettledWs r → SettledType false (web_socket_type r)
  unfolding merge_type
  ws_type_settled (merge_error e) h = tt
  ws_type_settled (merged w c) h = λ b. ap web_socket_type h

  wh_type_settled :
      (r : MergeResult WebhookConfig) → SettledWh r → SettledType false (webhook_type r)
  unfolding merge_type
  wh_type_settled (merge_error e) h = tt
  wh_type_settled (merged w c) h = λ b. ap webhook_type h

  type_settled :
      (managed : Bool) (changed : Bool) (base updates : EsSpec)
      → SettledType managed (merge_type managed d changed base updates)
  unfolding merge_type
  type_settled true changed base updates = λ b. refl
  type_settled false changed base updates =
      let t = check_update_enum changed base.type updates.type "websocket" in
      if_both (SettledType false) (str_eq t.0 "websocket") _ _
        (λ _. ws_type_settled _ (ws_settled t.1 base.web_socket updates.web_socket))
        (λ _.
          if_both (SettledType false) (str_eq t.0 "webhook") _ _
            (λ _. wh_type_settled _ (wh_settled t.1 base.webhook updates.webhook)) (λ _. tt))

  -- A base that holds the settings `s`.
  abbrev with_settings : EsSpec → Settings → EsSpec
  with_settings b s = record b {
    suspended = some s.suspended;
    batch_size = some s.batch_size;
    error_handling = some s.error_handling;
    batch_timeout = some s.batch_timeout;
    retry_timeout = some s.retry_timeout;
    blocked_retry_delay = some s.blocked_retry_delay;
  }

  settings_settled :
      (b : EsSpec) (s : Settings) → merge_settings d false (with_settings b s) no_spec ≡ (s, false)
  unfolding merge_settings
  settings_settled b s = rw (
    bool_eq_refl s.suspended,
    num_same s.batch_size,
    str_eq_refl s.error_handling,
    num_same s.batch_timeout,
    num_same s.retry_timeout,
    num_same s.blocked_retry_delay,
  )

  abbrev SettledEs : Bool → ℕ → MergeResult EsSpec → Type 0
  SettledEs managed later (merge_error e) = Unit {0}
  SettledEs managed later (merged m c) =
      merge_validate_es_config managed d later (some m) no_spec
      ≡ merged (record m { updated = some later }) false

  module _ (managed : Bool) (now later : ℕ) where
    named_settled :
        (i : String × ℕ) (name : String) (b : EsSpec) (s : Settings) (t : TypeConfig)
        → merge_settings d false b no_spec ≡ (s, false)
        → merge_type managed d false b no_spec ≡ merged t false
        → merge_named managed d later b no_spec i (some (name, false))
          ≡ whole_spec later i name s (merged t false)
    unfolding merge_named
    named_settled i name b s t p q =
        ap
          (λ (x : Settings × Bool).
            whole_spec later i name x.0 (merge_type managed d x.1 b no_spec))
          p
        ∙ ap (whole_spec later i name s) q

    whole_settled :
        (i : String × ℕ) (name : String) (s : Settings) (r : MergeResult TypeConfig)
        → name_or_error managed i.0 (name, false) ≡ some (name, false)
        → SettledType managed r
        → SettledEs managed later (whole_spec now i name s r)
    unfolding merge_validate_es_config merge_with_id
    whole_settled i name s (merge_error e) n h = tt
    whole_settled i name s (merged t c) n h =
        rw (str_eq_refl name, n) (named_settled i name m s t (settings_settled m s) (h m))
      where
        m : EsSpec
        m = record {
          id = some i.0;
          created = some i.1;
          updated = some now;
          name = some name;
          suspended = some s.suspended;
          type = t.type;
          error_handling = some s.error_handling;
          batch_size = some s.batch_size;
          batch_timeout = some s.batch_timeout;
          retry_timeout = some s.retry_timeout;
          blocked_retry_delay = some s.blocked_retry_delay;
          eth_compat_batch_timeout_ms = none;
          eth_compat_retry_timeout_sec = none;
          eth_compat_blocked_retry_delay_sec = none;
          webhook = t.webhook;
          web_socket = t.web_socket;
        }

    named_Settled :
        (base updates : EsSpec) (i : String × ℕ) (o : Option (String × Bool))
        → SettledName managed i.0 o
        → SettledEs managed later (merge_named managed d now base updates i o)
    unfolding merge_named
    named_Settled base updates i none n = tt
    named_Settled base updates i (some x) n =
        let s = merge_settings d x.1 base updates in
        whole_settled i x.0 s.0 (merge_type managed d s.1 base updates) n
          (type_settled managed s.1 base updates)

    with_id_Settled :
        (base updates : EsSpec) (o : Option (String × ℕ))
        → SettledEs managed later (merge_with_id managed d now base updates o)
    unfolding merge_with_id
    with_id_Settled base updates none = tt
    with_id_Settled base updates (some i) =
        named_Settled base updates i _
          (name_settled managed i.0 (check_update_string false base.name updates.name ""))

    merge-Settled :
        (base : Option EsSpec) (updates : EsSpec)
        → SettledEs managed later (merge_validate_es_config managed d now base updates)
    unfolding merge_validate_es_config
    merge-Settled base updates =
        let b = get_or base no_spec in
        with_id_Settled b updates (id_and_created now updates b.created b.id)

    settled_result :
        (r : MergeResult EsSpec) (m : EsSpec) (c : Bool)
        → SettledEs managed later r
        → r ≡ merged m c
        → merge_validate_es_config managed d later (some m) no_spec
          ≡ merged (record m { updated = some later }) false
    settled_result r m c h e = subst (SettledEs managed later) e h

-- The configuration that a merge gives is complete: to merge it again, with no updates, changes
-- nothing but the time of the update, and says so.
pub remerge_unchanged :
    (managed : Bool) (d : EsDefaults) (now later : ℕ) (base : Option EsSpec) (updates m : EsSpec)
    (c : Bool)
    → merge_validate_es_config managed d now base updates ≡ merged m c
    → merge_validate_es_config managed d later (some m) no_spec
      ≡ merged (record m { updated = some later }) false
remerge_unchanged managed d now later base updates m c e =
    settled_result d managed now later _ m c (merge-Settled d managed now later base updates) e
