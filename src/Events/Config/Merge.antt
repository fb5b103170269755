-- ===== src/Events/Config/Merge.antt =====
-- The merges of internal/events: mergeValidateWsConfig of websockets.go, mergeValidateWhConfig of
-- webhooks.go, mergeValidateEsConfig of eventstream.go.
use firefly_transaction_mana.Prelude.{
  ℕ, String, Bool, true, false, Option, none, some, ◌||◌, str_eq, get_or, if◌then◌else◌,
}
use firefly_transaction_mana.Events.Config.{
  EsDefaults, EsSpec, no_spec, WebhookConfig, no_webhook, WebSocketConfig, no_web_socket,
  missing_id, missing_name, missing_webhook_url, invalid_distribution_mode, invalid_stream_type,
  MergeResult, merged, merge_error, check_update_string, check_update_bool, check_update_uint64,
  check_update_enum, check_update_string_map, check_timeout,
}

-- The older name of `load_balance` is migrated.
unfoldable pub distribution_mode_of : String → Option String
distribution_mode_of m =
    if str_eq m "load_balance" || str_eq m "workloaddistribution"
    then some "load_balance"
    else if str_eq m "broadcast"
    then some m
    else none

abbrev pub web_socket_or_error : Bool → Option String → MergeResult WebSocketConfig
web_socket_or_error changed none = merge_error invalid_distribution_mode
web_socket_or_error changed (some m) = merged (record { distribution_mode = some m }) changed

unfoldable pub merge_validate_ws_config :
    EsDefaults
    → Bool
    → Option WebSocketConfig
    → Option WebSocketConfig
    → MergeResult WebSocketConfig
unfolding distribution_mode_of
merge_validate_ws_config d changed base updates =
    let (mode, c) =
      check_update_enum changed (get_or base no_web_socket).distribution_mode
        (get_or updates no_web_socket).distribution_mode d.websocket_distribution_mode in
    web_socket_or_error c (distribution_mode_of mode)

unfoldable pub merge_webhook :
    EsDefaults → WebhookConfig → WebhookConfig → String × Bool → MergeResult WebhookConfig
merge_webhook d base updates (url, c0) =
    let (headers, c1) = check_update_string_map c0 base.headers updates.headers in
    let (skip, c2) =
      check_update_bool c1 base.tls_skip_host_verify updates.tls_skip_host_verify false in
    let (timeout, c3) =
      check_timeout 1000000000 c2 base.request_timeout updates.eth_compat_request_timeout_sec
        updates.request_timeout d.webhook_request_timeout in
    if str_eq url ""
    then merge_error missing_webhook_url
    else merged
        (record {
          url = some url;
          headers = headers;
          tls_skip_host_verify = some skip;
          request_timeout = some timeout;
          eth_compat_request_timeout_sec = none;
        })
        c3

unfoldable pub merge_validate_wh_config :
    EsDefaults → Bool → Option WebhookConfig → Option WebhookConfig → MergeResult WebhookConfig
unfolding merge_webhook
merge_validate_wh_config d changed base updates =
    merge_webhook d (get_or base no_webhook) (get_or updates no_webhook)
      (check_update_string changed (get_or base no_webhook).url (get_or updates no_webhook).url "")

-- The ID and the time of creation, which an update cannot change.
abbrev pub id_and_created : ℕ → EsSpec → Option ℕ → Option String → Option (String × ℕ)
id_and_created now updates (some c) (some i) = some (i, c)
id_and_created now updates _ _ = new_id updates.id (get_or updates.created now)
  where
    new_id : Option String → ℕ → Option (String × ℕ)
    new_id none c = none
    new_id (some i) c = some (i, c)

-- The name of a stream that the API manages is its ID; others must have one.
unfoldable pub name_or_error : Bool → String → String × Bool → Option (String × Bool)
name_or_error true id (name, c) = some (id, c)
name_or_error false id (name, c) = if str_eq name "" then none else some (name, c)

-- The type with its own settings, which a stream that the API manages does not have.
pub record TypeConfig : Type 0 where
  pub type : Option String
  pub webhook : Option WebhookConfig
  pub web_socket : Option WebSocketConfig

abbrev pub web_socket_type : MergeResult WebSocketConfig → MergeResult TypeConfig
web_socket_type (merge_error e) = merge_error e
web_socket_type (merged w c) =
    merged (record { type = some "websocket"; webhook = none; web_socket = some w }) c

abbrev pub webhook_type : MergeResult WebhookConfig → MergeResult TypeConfig
webhook_type (merge_error e) = merge_error e
webhook_type (merged w c) =
    merged (record { type = some "webhook"; webhook = some w; web_socket = none }) c

unfoldable pub merge_type : Bool → EsDefaults → Bool → EsSpec → EsSpec → MergeResult TypeConfig
unfolding merge_validate_ws_config merge_validate_wh_config
merge_type true d changed base updates =
    merged (record { type = none; webhook = none; web_socket = none }) changed
merge_type false d changed base updates =
    let (t, c) = check_update_enum changed base.type updates.type "websocket" in
    if str_eq t "websocket"
    then web_socket_type (merge_validate_ws_config d c base.web_socket updates.web_socket)
    else if str_eq t "webhook"
    then webhook_type (merge_validate_wh_config d c base.webhook updates.webhook)
    else merge_error invalid_stream_type

-- The settings that every stream has.
pub record Settings : Type 0 where
  pub suspended : Bool
  pub batch_size : ℕ
  pub error_handling : String
  pub batch_timeout : ℕ
  pub retry_timeout : ℕ
  pub blocked_retry_delay : ℕ

unfoldable pub merge_settings : EsDefaults → Bool → EsSpec → EsSpec → Settings × Bool
merge_settings d changed base updates =
    let (suspended, c1) = check_update_bool changed base.suspended updates.suspended false in
    let (size, c2) = check_update_uint64 c1 base.batch_size updates.batch_size d.batch_size in
    let (handling, c3) =
      check_update_enum c2 base.error_handling updates.error_handling d.error_handling in
    let (batch_timeout, c4) =
      check_timeout 1000000 c3 base.batch_timeout updates.eth_compat_batch_timeout_ms
        updates.batch_timeout d.batch_timeout in
    let (retry_timeout, c5) =
      check_timeout 1000000000 c4 base.retry_timeout updates.eth_compat_retry_timeout_sec
        updates.retry_timeout d.retry_timeout in
    let (delay, c6) =
      check_timeout 1000000000 c5 base.blocked_retry_delay
        updates.eth_compat_blocked_retry_delay_sec updates.blocked_retry_delay
        d.blocked_retry_delay in
    (
      record {
        suspended = suspended;
        batch_size = size;
        error_handling = handling;
        batch_timeout = batch_timeout;
        retry_timeout = retry_timeout;
        blocked_retry_delay = delay;
      },
      c6,
    )

abbrev pub whole_spec :
    ℕ → String × ℕ → String → Settings → MergeResult TypeConfig → MergeResult EsSpec
whole_spec now (id, created) name s (merge_error e) = merge_error e
whole_spec now (id, created) name s (merged t c) =
    merged
      (record {
        id = some id;
        created = some created;
        updated = some now;
        name = some name;
        suspended = some s.suspended;
        type = t.type;
        error_handling = some s.error_handling;
        batch_size = some s.batch_size;
        batch_timeout = some s.batch_timeout;
        retry_timeout = some s.retry_timeout;
        blocked_retry_delay = some s.blocked_retry_delay;
        eth_compat_batch_timeout_ms = none;
        eth_compat_retry_timeout_sec = none;
        eth_compat_blocked_retry_delay_sec = none;
        webhook = t.webhook;
        web_socket = t.web_socket;
      })
      c

unfoldable pub merge_named :
    Bool
    → EsDefaults
    → ℕ
    → EsSpec
    → EsSpec
    → String × ℕ
    → Option (String × Bool)
    → MergeResult EsSpec
unfolding merge_settings merge_type
merge_named managed d now base updates i none = merge_error missing_name
merge_named managed d now base updates i (some (name, changed)) =
    let (s, c) = merge_settings d changed base updates in
    whole_spec now i name s (merge_type managed d c base updates)

unfoldable pub merge_with_id :
    Bool → EsDefaults → ℕ → EsSpec → EsSpec → Option (String × ℕ) → MergeResult EsSpec
unfolding name_or_error merge_named
merge_with_id managed d now base updates none = merge_error missing_id
merge_with_id managed d now base updates (some (id, created)) =
    merge_named managed d now base updates (id, created)
      (name_or_error managed id (check_update_string false base.name updates.name ""))

unfoldable pub merge_validate_es_config :
    Bool → EsDefaults → ℕ → Option EsSpec → EsSpec → MergeResult EsSpec
unfolding merge_with_id
merge_validate_es_config managed d now base updates =
    let b = get_or base no_spec in
    merge_with_id managed d now b updates (id_and_created now updates b.created b.id)
