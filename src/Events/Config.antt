-- ===== src/Events/Config.antt =====
-- pkg/apitypes/api_types.go: the CheckUpdate functions; and the merges of internal/events:
-- mergeValidateEsConfig, mergeValidateWhConfig, mergeValidateWsConfig. A nil pointer is `none`,
-- a time is a number, and a duration its 64 bits.
pub mod Merge
pub mod Settled
pub mod Unchanged
pub mod Changed
use Prim.Native.Nat.{◌%◌}
use firefly_transaction_mana.Prelude.{
  ℕ, ◌+◌, ◌*◌, String, Bool, true, false, not, Option, none, some, ◌&&◌, ◌||◌, ◌==◌, str_eq,
  or_else, get_or, if◌then◌else◌,
}

abbrev pub bool_eq : Bool → Bool → Bool
bool_eq true b = b
bool_eq false b = not b

module _ {A : Type 0} (same : A → A → Bool) where
  abbrev pub differs_from : Option A → A → Bool
  differs_from none v = true
  differs_from (some o) v = not (same o v)

  abbrev pub check_merged : Bool → Option A → Option A → A → A × Bool
  check_merged changed old none def = (def, true)
  check_merged changed old (some v) def = (v, changed || differs_from old v)

  -- The merged value, which is never nil, and whether anything changed so far. Its order of
  -- arguments is that of the source, without the target: changed, old, new, default.
  abbrev pub check_update : Bool → Option A → Option A → A → A × Bool
  check_update changed old new def = check_merged changed old (or_else new old) def

abbrev pub check_update_string : Bool → Option String → Option String → String → String × Bool
check_update_string = check_update str_eq

abbrev pub check_update_bool : Bool → Option Bool → Option Bool → Bool → Bool × Bool
check_update_bool = check_update bool_eq

abbrev pub check_update_uint64 : Bool → Option ℕ → Option ℕ → ℕ → ℕ × Bool
check_update_uint64 = check_update ◌==◌

abbrev pub check_update_duration : Bool → Option ℕ → Option ℕ → ℕ → ℕ × Bool
check_update_duration = check_update ◌==◌

abbrev pub check_update_enum : Bool → Option String → Option String → String → String × Bool
check_update_enum = check_update str_eq

-- A map of strings by its JSON text, which sorts the keys.
abbrev pub check_update_string_map : Bool → Option String → Option String → Option String × Bool
check_update_string_map changed old none = (old, false)
check_update_string_map changed none (some m) = (some m, true)
check_update_string_map changed (some o) (some m) = (some m, changed || not (str_eq o m))

pub record WebhookConfig : Type 0 where
  pub url : Option String
  pub headers : Option String
  pub tls_skip_host_verify : Option Bool
  pub request_timeout : Option ℕ
  pub eth_compat_request_timeout_sec : Option ℕ

pub record WebSocketConfig : Type 0 where
  pub distribution_mode : Option String

pub record EsDefaults : Type 0 where
  pub batch_size : ℕ
  pub batch_timeout : ℕ
  pub error_handling : String
  pub retry_timeout : ℕ
  pub blocked_retry_delay : ℕ
  pub webhook_request_timeout : ℕ
  pub websocket_distribution_mode : String

-- apitypes.EventStream
pub record EsSpec : Type 0 where
  pub id : Option String
  pub created : Option ℕ
  pub updated : Option ℕ
  pub name : Option String
  pub suspended : Option Bool
  pub type : Option String
  pub error_handling : Option String
  pub batch_size : Option ℕ
  pub batch_timeout : Option ℕ
  pub retry_timeout : Option ℕ
  pub blocked_retry_delay : Option ℕ
  pub eth_compat_batch_timeout_ms : Option ℕ
  pub eth_compat_retry_timeout_sec : Option ℕ
  pub eth_compat_blocked_retry_delay_sec : Option ℕ
  pub webhook : Option WebhookConfig
  pub web_socket : Option WebSocketConfig

pub data MergeError : Type 0 where
  missing_id missing_name missing_webhook_url invalid_distribution_mode invalid_stream_type :
      MergeError

pub data MergeResult (A : Type 0) : Type 0 where
  merged : A → Bool → MergeResult A
  merge_error : MergeError → MergeResult A

abbrev pub no_webhook : WebhookConfig
no_webhook = record {
  url = none;
  headers = none;
  tls_skip_host_verify = none;
  request_timeout = none;
  eth_compat_request_timeout_sec = none;
}

abbrev pub no_web_socket : WebSocketConfig
no_web_socket = record { distribution_mode = none }

abbrev pub no_spec : EsSpec
no_spec = record {
  id = none;
  created = none;
  updated = none;
  name = none;
  suspended = none;
  type = none;
  error_handling = none;
  batch_size = none;
  batch_timeout = none;
  retry_timeout = none;
  blocked_retry_delay = none;
  eth_compat_batch_timeout_ms = none;
  eth_compat_retry_timeout_sec = none;
  eth_compat_blocked_retry_delay_sec = none;
  webhook = none;
  web_socket = none;
}

-- A duration in some unit of nanoseconds, which wraps.
abbrev pub in_unit : ℕ → Option ℕ → Option ℕ
in_unit unit none = none
in_unit unit (some n) = some (n * unit % 18446744073709551616)

-- The older field is read before the newer one.
abbrev pub check_timeout : ℕ → Bool → Option ℕ → Option ℕ → Option ℕ → ℕ → ℕ × Bool
check_timeout unit changed old eth new def =
    check_update_duration changed old (or_else (in_unit unit eth) new) def
