-- ===== src/Events/Config/Unchanged.antt =====
-- The parts of a merge that report no change: mergeValidateEsConfig and mergeValidateWsConfig of
-- internal/events.
use firefly_transaction_mana.Prelude.{
  ℕ, String, ◌≡◌, ◌∙◌, refl, sym, ap, Bool, true, false, not, Option, none, some, ◌==◌, ◌||◌, ◌⊎◌,
  inl, inr, Bool-cases, str_eq, eq_iff, or_else, get_or, arith, if_both,
}
use firefly_transaction_mana.Events.Config.{
  bool_eq, check_merged, check_update, EsDefaults, EsSpec, WebhookConfig, WebSocketConfig,
  no_web_socket, MergeResult, merged, merge_error, check_update_enum,
}
use firefly_transaction_mana.Events.Config.Merge.{
  distribution_mode_of, web_socket_or_error, merge_validate_ws_config, merge_validate_wh_config,
  TypeConfig, web_socket_type, webhook_type, merge_type, Settings, merge_settings,
}

module _ {A : Type 0} (same : A → A → Bool) (same_eq : (a b : A) → same a b ≡ true → a ≡ b) where
  merged_unchanged :
      (changed : Bool) (old new : Option A) (def : A)
      → (check_merged same changed old new def).1 ≡ false
      → (changed ≡ false) × (old ≡ some (check_merged same changed old new def).0)
  merged_unchanged changed old none def h = absurd cc
  merged_unchanged true none (some v) def h = absurd cc
  merged_unchanged false none (some v) def h = absurd cc
  merged_unchanged true (some o) (some v) def h = absurd cc
  merged_unchanged false (some o) (some v) def h =
      (refl, ap some (same_eq o v (of_not (same o v) h)))
    where
      of_not : (b : Bool) → not b ≡ false → b ≡ true
      of_not true e = refl
      of_not false e = absurd cc

  pub update_unchanged :
      (changed : Bool) (old new : Option A) (def : A)
      → (check_update same changed old new def).1 ≡ false
      → (changed ≡ false) × (old ≡ some (check_update same changed old new def).0)
  update_unchanged changed old new def h = merged_unchanged changed old (or_else new old) def h

num_eq : (a b : ℕ) → (a == b) ≡ true → a ≡ b
num_eq a b h = ground arith

pub text_eq : (a b : String) → str_eq a b ≡ true → a ≡ b
text_eq a b h = (eq_iff a b).0 h

flag_eq : (a b : Bool) → bool_eq a b ≡ true → a ≡ b
flag_eq true b h = sym h
flag_eq false true h = absurd cc
flag_eq false false h = refl

-- The base has the settings `s`.
pub record HasSettings (b : EsSpec) (s : Settings) : Type 0 where
  pub suspended : b.suspended ≡ some s.suspended
  pub batch_size : b.batch_size ≡ some s.batch_size
  pub error_handling : b.error_handling ≡ some s.error_handling
  pub batch_timeout : b.batch_timeout ≡ some s.batch_timeout
  pub retry_timeout : b.retry_timeout ≡ some s.retry_timeout
  pub blocked_retry_delay : b.blocked_retry_delay ≡ some s.blocked_retry_delay

pub settings_unchanged :
    (d : EsDefaults) (changed : Bool) (b u : EsSpec)
    → (merge_settings d changed b u).1 ≡ false
    → (changed ≡ false) × HasSettings b (merge_settings d changed b u).0
unfolding merge_settings
settings_unchanged d changed b u h =
    let delay = update_unchanged ◌==◌ num_eq _ b.blocked_retry_delay _ _ h in
    let retry = update_unchanged ◌==◌ num_eq _ b.retry_timeout _ _ delay.0 in
    let batch = update_unchanged ◌==◌ num_eq _ b.batch_timeout _ _ retry.0 in
    let handling = update_unchanged str_eq text_eq _ b.error_handling _ _ batch.0 in
    let size = update_unchanged ◌==◌ num_eq _ b.batch_size _ _ handling.0 in
    let suspended = update_unchanged bool_eq flag_eq _ b.suspended _ _ size.0 in
    (
      suspended.0,
      record {
        suspended = suspended.1;
        batch_size = size.1;
        error_handling = handling.1;
        batch_timeout = batch.1;
        retry_timeout = retry.1;
        blocked_retry_delay = delay.1;
      },
    )

-- The settings of a websocket are the same, or the older name of a distribution mode is migrated.
pub data SameWebSocket (a b : Option WebSocketConfig) : Type 0 where
  same_mode : a ≡ b → SameWebSocket a b
  migrated :
      a ≡ some (record { distribution_mode = some "workloaddistribution" })
      → b ≡ some (record { distribution_mode = some "load_balance" })
      → SameWebSocket a b

abbrev KeptMode : String → Option String → Type 0
KeptMode x none = Unit {0}
KeptMode x (some y) = (x ≡ y) ⊎ ((x ≡ "workloaddistribution") × (y ≡ "load_balance"))

distribution_mode_of-KeptMode : (x : String) → KeptMode x (distribution_mode_of x)
unfolding distribution_mode_of
distribution_mode_of-KeptMode x =
    if_both (KeptMode x) (str_eq x "load_balance" || str_eq x "workloaddistribution") _ _
      either_name (λ _. if_both (KeptMode x) (str_eq x "broadcast") _ _ (λ _. inl refl) (λ _. tt))
  where
    either_name :
        (str_eq x "load_balance" || str_eq x "workloaddistribution") ≡ true
        → KeptMode x (some "load_balance")
    either_name e = elim (Bool-cases (str_eq x "load_balance")) [
      | inl f ↦ inl ((eq_iff x "load_balance").0 f)
      | inr f ↦ inr ((eq_iff x "workloaddistribution").0 (ground (arith, e, f)), refl)
    ]

abbrev with_mode : Option String → Option WebSocketConfig
with_mode m = some (record { distribution_mode = m })

web_socket_with :
    (o : Option WebSocketConfig) (x : String)
    → (get_or o no_web_socket).distribution_mode ≡ some x
    → o ≡ some (record { distribution_mode = some x })
web_socket_with none x e = absurd cc
web_socket_with (some w) x e = ap with_mode e

-- A merge of the type reports no change only if the type is as it was.
abbrev pub KeptType : EsSpec → Bool → MergeResult TypeConfig → Type 0
KeptType b changed (merge_error e) = Unit {0}
KeptType b changed (merged t c) =
    c ≡ false
    → t.webhook ≡ none
    → (changed ≡ false) × (b.type ≡ t.type) × SameWebSocket b.web_socket t.web_socket

ws_flag :
    (b : EsSpec) (changed c : Bool) (x : String) (o : Option String)
    → (c ≡ false
        → (changed ≡ false)
          × (b.type ≡ some "websocket")
          × ((get_or b.web_socket no_web_socket).distribution_mode ≡ some x))
    → KeptMode x o
    → KeptType b changed (web_socket_type (web_socket_or_error c o))
ws_flag b changed c x none h k = tt
ws_flag b changed c x (some y) h (inl k) = λ e _. (
  (h e).0,
  (h e).1,
  same_mode (web_socket_with b.web_socket x (h e).2 ∙ ap (λ (m : String). with_mode (some m)) k),
)
ws_flag b changed c x (some y) h (inr (k, l)) = λ e _. (
  (h e).0,
  (h e).1,
  migrated (web_socket_with b.web_socket x (h e).2 ∙ ap (λ (m : String). with_mode (some m)) k)
      (ap (λ (m : String). with_mode (some m)) l),
)

wh_flag :
    (b : EsSpec) (changed : Bool) (r : MergeResult WebhookConfig)
    → KeptType b changed (webhook_type r)
wh_flag b changed (merge_error e) = tt
wh_flag b changed (merged w c) = λ _ e. absurd cc

pub type_unchanged :
    (d : EsDefaults) (changed : Bool) (b u : EsSpec)
    → KeptType b changed (merge_type false d changed b u)
unfolding merge_type merge_validate_ws_config
type_unchanged d changed b u =
    let t = check_update_enum changed b.type u.type "websocket" in
    let mode =
      check_update_enum t.1 (get_or b.web_socket no_web_socket).distribution_mode
        (get_or u.web_socket no_web_socket).distribution_mode d.websocket_distribution_mode in
    if_both (KeptType b changed) (str_eq t.0 "websocket") _ _
      (λ e.
        ws_flag b changed mode.1 mode.0 (distribution_mode_of mode.0)
          (λ f.
            let kept_mode =
              update_unchanged str_eq text_eq t.1
                (get_or b.web_socket no_web_socket).distribution_mode
                (get_or u.web_socket no_web_socket).distribution_mode d.websocket_distribution_mode
                f in
            let kept =
              update_unchanged str_eq text_eq changed b.type u.type "websocket" kept_mode.0 in
            (kept.0, kept.1 ∙ ap some (text_eq t.0 "websocket" e), kept_mode.1))
          (distribution_mode_of-KeptMode mode.0))
      (λ _.
        if_both (KeptType b changed) (str_eq t.0 "webhook") _ _
          (λ _. wh_flag b changed (merge_validate_wh_config d t.1 b.webhook u.webhook)) (λ _. tt))
