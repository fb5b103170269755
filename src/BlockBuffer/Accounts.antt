-- ===== src/BlockBuffer/Accounts.antt =====
-- No event is lost without a mark.
use firefly_transaction_mana.Prelude.{ℕ, ◌≡◌, Option, none, some, List, [], ◌∷◌, ◌++◌, length}
use firefly_transaction_mana.Confirmations.Rounds.{BlockHashEvent}
use firefly_transaction_mana.BlockBuffer.{Buffer, Happening, received, unblocked, mark_gap}

abbrev pub events_of : List Happening → List BlockHashEvent
events_of [] = []
events_of (received e room ∷ hs) = e ∷ events_of hs
events_of (unblocked ∷ hs) = events_of hs

-- An event as it is sent, after which the events `lost` were discarded: marked if there are any.
abbrev pub marked : BlockHashEvent → List BlockHashEvent → BlockHashEvent
marked e [] = e
marked e (d ∷ ds) = mark_gap e

-- How the events that were received, in their order, become those that are sent: each event is sent,
-- and where some were discarded after it, it is marked.
pub data SentFor : List BlockHashEvent → List BlockHashEvent → Type 0 where
  no_events : SentFor [] []
  next_sent :
      (es ss : List BlockHashEvent) (e : BlockHashEvent) (lost : List BlockHashEvent)
      → SentFor es ss
      → SentFor (es ++ e ∷ lost) (ss ++ marked e lost ∷ [])

-- An event `held` that is held, with those that were discarded since.
pub record Held (es ss : List BlockHashEvent) (held : BlockHashEvent) (count : ℕ) : Type 0 where
  pub before : List BlockHashEvent
  pub event : BlockHashEvent
  pub lost : List BlockHashEvent
  pub sent : SentFor before ss
  pub split : es ≡ before ++ event ∷ lost
  pub is_marked : held ≡ marked event lost
  pub counted : count ≡ length lost

abbrev pub AccountsAt :
    List BlockHashEvent → List BlockHashEvent → ℕ → Option BlockHashEvent → Type 0
AccountsAt es ss count none = SentFor es ss × (count ≡ 0)
AccountsAt es ss count (some held) = Held es ss held count

pub record Accounts (es : List BlockHashEvent) (s : Buffer) : Type 0 where
  pub accounts : AccountsAt es s.sent s.blocked_discard_count s.blocked_update
