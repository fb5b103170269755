-- ===== src/Events/Lifecycle/Consistent.antt =====
-- The status of a stream agrees with its running state and its listeners, whatever the order of the
-- calls and the answers.
use firefly_transaction_mana.Prelude.{
  ◌≡◌, refl, Bool, true, false, not, ◌&&◌, Option, none, some, List, [], ◌∷◌, map, arith, if_both,
}
use firefly_transaction_mana.Events.{EsListener}
use firefly_transaction_mana.Events.Checkpoints.{StreamCheckpoint}
use firefly_transaction_mana.Events.Lifecycle.{
  Status, es_started, es_stopping, es_stopped, es_deleted, status_eq, Running, Stream, AddRequest,
  StartAnswers, StartEnd, check_set_status, mark_started, event_requests, start_loops,
  start_with_checkpoint, not_running, start, start_stream,
}
use firefly_transaction_mana.Events.Lifecycle.Stop.{
  StopAnswers, delete_end, StopEnd, stop_ok, stop_status_error, stop_notify_error,
  stop_waits_forever, stop_panic, stop_of, request_stop, loops_end, finish_stop, stop_requested,
  stop, DeleteEnd, delete_stopped, delete_after_stop, delete,
}

abbrev pub NoneStarted : List EsListener → Type 0
NoneStarted [] = Unit {0}
NoneStarted (l ∷ ls) = (l.started ≡ false) × NoneStarted ls

abbrev pub ConsistentAt : Status → Option Running → List EsListener → Type 0
ConsistentAt es_started (some r) ls = r.cancelled ≡ false
ConsistentAt es_stopping (some r) ls = r.cancelled ≡ true
ConsistentAt es_stopped none ls = NoneStarted ls
ConsistentAt es_deleted none ls = NoneStarted ls
ConsistentAt _ _ ls = ⊥

-- A stream has a running state exactly while it is started or stopping, and its context is
-- cancelled exactly while it is stopping; otherwise no listener is marked as started.
pub record Consistent (s : Stream) : Type 0 where
  pub agrees : ConsistentAt s.status s.current s.listeners

stopped-NoneStarted :
    (st : Status) (r : Option Running) (ls : List EsListener)
    → ConsistentAt st r ls
    → status_eq st es_stopped ≡ true
    → NoneStarted ls
stopped-NoneStarted es_stopped none ls c h = c
stopped-NoneStarted es_stopped (some r) ls c h = elim c [ ]
stopped-NoneStarted es_started r ls c h = absurd cc
stopped-NoneStarted es_stopping r ls c h = absurd cc
stopped-NoneStarted es_deleted r ls c h = absurd cc

module _ (a : StartAnswers) where
  loops-Consistent :
      (s : Stream) (rs : List AddRequest)
      → s.status ≡ es_started
      → Consistent (start_loops a s rs).0
  unfolding start_loops
  loops-Consistent s rs h = record { agrees = rw (h) refl }

  with_checkpoint-Consistent :
      (s : Stream) (cp : Option StreamCheckpoint)
      → s.status ≡ es_started
      → NoneStarted s.listeners
      → Consistent (start_with_checkpoint a s cp).0
  unfolding start_with_checkpoint
  with_checkpoint-Consistent s cp h n =
      if_both (λ (x : Stream × StartEnd). Consistent x.0) a.stream_start_ok _ _
        (λ _. loops-Consistent s (event_requests a.parses cp s.listeners) h)
        (λ _. record { agrees = n })

  pub start-Consistent :
      (given : Option StreamCheckpoint) (s : Stream) → Consistent s → Consistent (start a given s).0
  unfolding start
  start-Consistent given s c =
      if_both (λ (x : Stream × StartEnd). Consistent x.0) (not (status_eq s.status es_stopped)) _ _
        (λ _. c)
        (λ e.
          let s' : Stream = record s { status = es_started; current = some not_running } in
          let n = stopped-NoneStarted s.status s.current s.listeners c.agrees (ground (arith, e)) in
          if_both (λ (x : Stream × StartEnd). Consistent x.0) s.api_managed _ _
            (λ _. with_checkpoint-Consistent s' given refl n)
            (λ _.
              if_both (λ (x : Stream × StartEnd). Consistent x.0) (not a.action_ok) _ _
                (λ _. record { agrees = refl })
                (λ _.
                  if_both (λ (x : Stream × StartEnd). Consistent x.0) (not a.checkpoint_read) _ _
                    (λ _. record { agrees = refl })
                    (λ _. with_checkpoint-Consistent s' s.stored refl n))))

  pub start_stream-Consistent : (s : Stream) → Consistent s → Consistent (start_stream a s).0
  unfolding start_stream
  start_stream-Consistent s c =
      if_both (λ (x : Stream × StartEnd). Consistent x.0) s.api_managed _ _ (λ _. c)
        (λ _. start-Consistent none s c)

pub unstarted-NoneStarted : (ls : List EsListener) → NoneStarted (map (mark_started false) ls)
unfolding mark_started
unstarted-NoneStarted [] = tt
unstarted-NoneStarted (l ∷ ls) = (refl, unstarted-NoneStarted ls)

abbrev at_status :
    Bool → List EsListener → Bool → Option StreamCheckpoint → Status → Option Running → Stream
at_status managed ls conf stored st r = record {
  status = st;
  api_managed = managed;
  current = r;
  listeners = ls;
  confirmations_started = conf;
  stored = stored;
}

module _ (a : StopAnswers) (managed : Bool) (ls : List EsListener) (conf : Bool)
    (stored : Option StreamCheckpoint) where
  stopping-Consistent :
      (r : Running)
      → r.cancelled ≡ true
      → Consistent
          (stop_requested a
            (at_status managed ls conf stored es_stopping (some r), stop_of (some r))).0
  unfolding finish_stop check_set_status
  stopping-Consistent r h =
      if_both (λ (x : Stream × StopEnd). Consistent x.0) (not a.notified) _ _
        (λ _. record { agrees = h })
        (λ _.
          if_both (λ (x : Stream × StopEnd). Consistent x.0) (conf && a.callback_blocked) _ _
            (λ _. record { agrees = h })
            (λ _.
              if_both (λ (x : Stream × StopEnd). Consistent x.0)
                (loops_end a (at_status managed ls conf stored es_stopping (some r)) r) _ _
                (λ _. record { agrees = unstarted-NoneStarted ls }) (λ _. record { agrees = h })))

  stop_at-Consistent :
      (st : Status) (r : Option Running)
      → ConsistentAt st r ls
      → Consistent (stop a (at_status managed ls conf stored st r)).0
  unfolding stop request_stop
  stop_at-Consistent es_started (some r) c =
      stopping-Consistent (record r { cancelled = true }) refl
  stop_at-Consistent es_stopping (some r) c = stopping-Consistent r c
  stop_at-Consistent es_stopped none c = record { agrees = c }
  stop_at-Consistent es_deleted none c = record { agrees = c }
  stop_at-Consistent es_started none c = elim c [ ]
  stop_at-Consistent es_stopping none c = elim c [ ]
  stop_at-Consistent es_stopped (some r) c = elim c [ ]
  stop_at-Consistent es_deleted (some r) c = elim c [ ]

module _ (managed : Bool) (ls : List EsListener) (conf : Bool) where
  delete_end-Consistent :
      (stored : Option StreamCheckpoint) (st : Status) (r : Option Running)
      → ConsistentAt st r ls
      → Consistent
          (delete_end
            (at_status managed ls conf stored st r)
            (check_set_status es_stopped es_deleted (at_status managed ls conf stored st r))).0
  unfolding check_set_status
  delete_end-Consistent stored es_stopped none c = record { agrees = c }
  delete_end-Consistent stored es_started (some r) c = record { agrees = c }
  delete_end-Consistent stored es_stopping (some r) c = record { agrees = c }
  delete_end-Consistent stored es_deleted none c = record { agrees = c }
  delete_end-Consistent stored es_started none c = elim c [ ]
  delete_end-Consistent stored es_stopping none c = elim c [ ]
  delete_end-Consistent stored es_stopped (some r) c = elim c [ ]
  delete_end-Consistent stored es_deleted (some r) c = elim c [ ]

pub stop-Consistent : (a : StopAnswers) (s : Stream) → Consistent s → Consistent (stop a s).0
stop-Consistent a s c =
    stop_at-Consistent a s.api_managed s.listeners s.confirmations_started s.stored s.status
      s.current c.agrees

delete_stopped-Consistent :
    (deleted : Bool) (s : Stream) → Consistent s → Consistent (delete_stopped deleted s).0
unfolding delete_stopped
delete_stopped-Consistent deleted s c =
    if_both (λ (x : Stream × DeleteEnd). Consistent x.0) s.api_managed _ _
      (λ _.
        delete_end-Consistent s.api_managed s.listeners s.confirmations_started s.stored s.status
          s.current c.agrees)
      (λ _.
        if_both (λ (x : Stream × DeleteEnd). Consistent x.0) (not deleted) _ _ (λ _. c)
          (λ _.
            delete_end-Consistent s.api_managed s.listeners s.confirmations_started none s.status
              s.current c.agrees))

delete_after-Consistent :
    (deleted : Bool) (x : Stream × StopEnd)
    → Consistent x.0
    → Consistent (delete_after_stop deleted x).0
delete_after-Consistent deleted (s, stop_ok) c = delete_stopped-Consistent deleted s c
delete_after-Consistent deleted (s, stop_status_error) c = c
delete_after-Consistent deleted (s, stop_notify_error) c = c
delete_after-Consistent deleted (s, stop_waits_forever) c = c
delete_after-Consistent deleted (s, stop_panic) c = c

pub delete-Consistent :
    (a : StopAnswers) (deleted : Bool) (s : Stream)
    → Consistent s
    → Consistent (delete a deleted s).0
unfolding delete
delete-Consistent a deleted s c =
    if_both (λ (x : Stream × DeleteEnd). Consistent x.0) (status_eq s.status es_stopped) _ _
      (λ _. delete_stopped-Consistent deleted s c)
      (λ _. delete_after-Consistent deleted (stop a s) (stop-Consistent a s c))
