-- ===== src/Confirmations/Dispatch.antt =====
-- internal/confirmations/confirmations.go: dispatchConfirmations.
pub mod Synced
use firefly_transaction_mana.Prelude.{
  ℕ, String, Bool, true, false, not, Option, List, [], ◌∷◌, ◌++◌, ◌||◌, ltb, length, str_eq,
  if◌then◌else◌,
}
use firefly_transaction_mana.Handler.{Confirmation, ConfirmationsNotification}
use firefly_transaction_mana.Confirmations.{PendingItem, Effect, notified, removed}

abbrev pub is_empty {ℓ} : {A : Type ℓ} → List A → Bool
is_empty [] = true
is_empty (_ ∷ _) = false

-- The loop over the confirmations, side by side with those notified before: whether there is a
-- new fork, and what is to be notified, which is everything (`all`) for a new fork.
unfoldable pub additional :
    List Confirmation → List Confirmation → List Confirmation → Bool × List Confirmation
additional all [] ns = (false, [])
additional all (c ∷ cs) [] = let (fork, more) = additional all cs [] in (fork, c ∷ more)
additional all (c ∷ cs) (n ∷ ns) =
    let rest = additional all cs ns in
    if not (str_eq c.block_hash n.block_hash) then (true, all) else rest

-- `newFork` and `notificationConfirmations` after the loop.
unfoldable pub new_confirmations : PendingItem → Bool × List Confirmation
unfolding additional
new_confirmations p =
    let (fork, more) = additional p.confirmations p.confirmations p.notified_confirmations in
    (is_empty p.notified_confirmations || fork, more)

unfoldable pub capped : ℕ → ℕ → ℕ
capped count required = if ltb required count then required else count

unfoldable pub notification_of :
    ℕ → PendingItem → Bool → List Confirmation → ConfirmationsNotification
unfolding capped
notification_of required p new_fork cs = record {
  confirmed = p.confirmed;
  new_fork = new_fork;
  confirmations = cs;
  current_confirmation_count = capped (length p.confirmations) required;
  target_confirmation_count = required;
}

-- The item's record of what was notified, and the callback.
unfoldable pub notify_new : ℕ → PendingItem → Bool → List Confirmation → PendingItem × List Effect
unfolding notification_of
notify_new required p new_fork cs = (
  record p { notified_confirmations = if new_fork then cs else p.notified_confirmations ++ cs },
  notified (notification_of required p new_fork cs) ∷ [],
)

abbrev pub removal : Bool → List Effect
removal true = removed ∷ []
removal false = []

unfoldable pub notify_if_new :
    ℕ → PendingItem → Bool → List Confirmation → PendingItem × List Effect
unfolding notify_new
notify_if_new required p new_fork cs =
    if not (is_empty cs) || p.confirmed then notify_new required p new_fork cs else (p, [])

-- A confirmed item is removed from the pending ones before its callback.
unfoldable pub dispatch_confirmations : ℕ → PendingItem → PendingItem × List Effect
unfolding new_confirmations notify_if_new
dispatch_confirmations required p =
    let (new_fork, cs) = new_confirmations p in
    let (p', es) = notify_if_new required p new_fork cs in (p', removal p.confirmed ++ es)
