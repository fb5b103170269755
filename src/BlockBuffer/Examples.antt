-- ===== src/BlockBuffer/Examples.antt =====
-- A receiver that is full for a while.
use firefly_transaction_mana.Prelude.{String, true, false, List, [], ◌∷◌}
use firefly_transaction_mana.Confirmations.Rounds.{BlockHashEvent}
use firefly_transaction_mana.BlockBuffer.{Happening, received, unblocked}
use firefly_transaction_mana.BlockBuffer.Accounts.{Accounts}

abbrev event_of : String → BlockHashEvent
event_of h = record { block_hashes = h ∷ []; gap_potential = false; head_block_number = 9 }

abbrev happenings : List Happening
happenings =
    received (event_of "h7") true
    ∷ received (event_of "h8") false
    ∷ received (event_of "h9") true
    ∷ unblocked
    ∷ received (event_of "h10") true
    ∷ []
