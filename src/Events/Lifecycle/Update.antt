-- ===== src/Events/Lifecycle/Update.antt =====
-- internal/events/eventstream.go: UpdateSpec.
use firefly_transaction_mana.Prelude.{ℕ, some, ◌&&◌, if◌then◌else◌}
use firefly_transaction_mana.Events.Config.{
  EsDefaults, EsSpec, MergeError, MergeResult, merged, merge_error,
}
use firefly_transaction_mana.Events.Config.Merge.{merge_validate_es_config}
use firefly_transaction_mana.Events.Lifecycle.{
  es_started, status_eq, Stream, StartAnswers, StartEnd, start_ok, start_stream,
}
use firefly_transaction_mana.Events.Lifecycle.Stop.{StopAnswers, StopEnd, stop_ok, stop}

pub data UpdateEnd : Type 0 where
  update_ok : UpdateEnd
  update_invalid : MergeError → UpdateEnd
  update_stop_failed : StopEnd → UpdateEnd
  update_start_failed : StartEnd → UpdateEnd

abbrev pub start_updated : Stream × StartEnd → Stream × UpdateEnd
start_updated (s, start_ok rs) = (s, update_ok)
start_updated (s, e) = (s, update_start_failed e)

abbrev pub restart_updated : StartAnswers → Stream × StopEnd → Stream × UpdateEnd
restart_updated a (s, stop_ok) = start_updated (start_stream a s)
restart_updated a (s, e) = (s, update_stop_failed e)

-- The specification is that of the merge even where the restart fails.
abbrev pub update_merged :
    StopAnswers
    → StartAnswers
    → EsSpec
    → Stream
    → MergeResult EsSpec
    → EsSpec × (Stream × UpdateEnd)
update_merged stops a spec s (merge_error e) = (spec, (s, update_invalid e))
update_merged stops a spec s (merged m changed) = (
  m,
  if changed && status_eq s.status es_started
      then restart_updated a (stop stops s)
      else (s, update_ok),
)

unfoldable pub update_spec :
    EsDefaults
    → ℕ
    → StopAnswers
    → StartAnswers
    → EsSpec
    → EsSpec
    → Stream
    → EsSpec × (Stream × UpdateEnd)
unfolding merge_validate_es_config stop start_stream
update_spec d now stops a spec updates s =
    update_merged stops a spec s (merge_validate_es_config s.api_managed d now (some spec) updates)
