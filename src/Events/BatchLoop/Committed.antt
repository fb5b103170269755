-- ===== src/Events/BatchLoop/Committed.antt =====
-- A checkpoint moves only past events that were delivered.
use firefly_transaction_mana.Prelude.{ℕ, ◌≡◌, some, List, [], ◌∷◌, ◌++◌, ◌⊎◌, or_else}
use firefly_transaction_mana.Events.{EsListener}
use firefly_transaction_mana.Events.Poll.{find_listener, Poll}
use firefly_transaction_mana.Events.Poll.Gathered.{
  find_checkpoint, last_checkpoint_of, gathered, Gathered,
}
use firefly_transaction_mana.Events.Deliver.{Round, round_succeeded, round_failed}
use firefly_transaction_mana.Events.Checkpoints.{StreamCheckpoint}
use firefly_transaction_mana.Events.Checkpoints.Advance.{Advanced}
use firefly_transaction_mana.Events.BatchLoop.{
  Turn, LoopState, TurnEnd, turned, exited, loop_panic, waits,
}

-- A round succeeds, after others that failed.
pub data Succeeds : List Round → Type 0 where
  now : (rs : List Round) → Succeeds (round_succeeded ∷ rs)
  after_failure : (rs : List Round) → Succeeds rs → Succeeds (round_failed ∷ rs)

-- From the listeners `ls` to `ls'`, with the checkpoint `cp`: nothing was taken, or a round
-- succeeded for all that was; and each listener stands at its last event of those, or is past it
-- where the connector has scanned on.
pub record Commits (t : Turn) (ls ls' : List EsListener) (cp : StreamCheckpoint) : Type 0 where
  pub used : List Poll
  pub later : List Poll
  pub split : t.polls ≡ used ++ later
  pub settled : (gathered t.toolkit.less_than used ≡ []) ⊎ Succeeds t.rounds
  pub each :
      (l : EsListener)
      → find_listener l.id ls ≡ some l
      → (l' : EsListener) × (find_listener l.id ls' ≡ some l')
        × Advanced t.toolkit l.id
            (or_else (last_checkpoint_of l.id (gathered t.toolkit.less_than used)) l.checkpoint)
            (l', find_checkpoint l.id cp.listeners)

-- How a turn ends: with a checkpoint that is written or not, or with nothing changed.
pub data Outcome (s : LoopState) (t : Turn) : TurnEnd → Type 0 where
  committed :
      (n : ℕ) (ls' : List EsListener) (cp : StreamCheckpoint)
      → Commits t s.listeners ls' cp
      → Outcome s t (turned (record { number = n; listeners = ls'; stored = some cp }))
  not_written :
      (ls' : List EsListener) (cp : StreamCheckpoint)
      → Commits t s.listeners ls' cp
      → Outcome s t (exited ls' s.stored)
  unchanged : Outcome s t (exited s.listeners s.stored)
  panics : Outcome s t loop_panic
  waiting : Outcome s t waits
