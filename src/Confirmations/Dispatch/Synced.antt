-- ===== src/Confirmations/Dispatch/Synced.antt =====
-- A receiver of the notifications of an item has the confirmations that the item has.
use mathlib.Core.Path.{subst}
use mathlib.Core.List.{append-nil}
use firefly_transaction_mana.Prelude.{
  ℕ, ◌≡◌, refl, sym, Bool, true, false, not, List, [], ◌∷◌, ◌++◌, ◌||◌, str_eq, eq_iff, arith,
  String, ◌⊎◌, inl, inr, ap, ◌∙◌, if◌then◌else◌, if_both,
}
use firefly_transaction_mana.Handler.{Confirmation}
use firefly_transaction_mana.Confirmations.{PendingItem, Effect, notified}
use firefly_transaction_mana.Confirmations.Dispatch.{
  is_empty, additional, new_confirmations, notification_of, notify_new, notify_if_new, removal,
  dispatch_confirmations,
}

-- What apitypes.ConfirmationsNotification asks of a receiver: a new fork replaces what it has,
-- and anything else is added to it.
abbrev pub receive : List Confirmation → Effect → List Confirmation
receive known (notified n) = if n.new_fork then n.confirmations else known ++ n.confirmations
receive known _ = known

abbrev pub receive_all : List Confirmation → List Effect → List Confirmation
receive_all known [] = known
receive_all known (e ∷ es) = receive_all (receive known e) es

-- The hashes of the first list are the first of the second.
pub data HashPrefix : List Confirmation → List Confirmation → Type 0 where
  prefix_nil : {ns : List Confirmation} → HashPrefix [] ns
  prefix_cons :
      {c n : Confirmation} {cs ns : List Confirmation}
      → c.block_hash ≡ n.block_hash
      → HashPrefix cs ns
      → HashPrefix (c ∷ cs) (n ∷ ns)

additional_fresh : (all cs : List Confirmation) → additional all cs [] ≡ (false, cs)
unfolding additional
additional_fresh all [] = refl
additional_fresh all (c ∷ cs) = ground (arith, additional_fresh all cs)

abbrev pub hashes : List Confirmation → List String
hashes [] = []
hashes (c ∷ cs) = c.block_hash ∷ hashes cs

-- What the loop finds: a fork with all confirmations; or what is to be added to those that were
-- notified, `ns`; or nothing to add to them, of which it has the first.
abbrev Found :
    List Confirmation → List Confirmation → List Confirmation → Bool × List Confirmation → Type 0
Found all cs ns (true, more) = more ≡ all
Found all cs ns (false, more) = (hashes cs ≡ hashes (ns ++ more)) ⊎ ((more ≡ []) × HashPrefix cs ns)

Found-cons :
    (all cs ns : List Confirmation) (c n : Confirmation) (b : Bool) (x : Bool × List Confirmation)
    → str_eq c.block_hash n.block_hash ≡ b
    → Found all cs ns x
    → Found all (c ∷ cs) (n ∷ ns) (if not b then (true, all) else x)
Found-cons all cs ns c n true (true, more) e h = h
Found-cons all cs ns c n true (false, more) e (inl h) =
    inl (rw ((eq_iff c.block_hash n.block_hash).0 e, h) refl)
Found-cons all cs ns c n true (false, more) e (inr h) =
    inr (h.0, prefix_cons ((eq_iff c.block_hash n.block_hash).0 e) h.1)
Found-cons all cs ns c n false x e h = refl

additional-Found : (all cs ns : List Confirmation) → Found all cs ns (additional all cs ns)
unfolding additional
additional-Found all [] ns = inr (refl, prefix_nil)
additional-Found all (c ∷ cs) [] = rw (additional_fresh all cs) (inl refl)
additional-Found all (c ∷ cs) (n ∷ ns) =
    Found-cons all cs ns c n _ (additional all cs ns) refl (additional-Found all cs ns)

-- What a receiver that had `before` has `after`, where the item has the confirmations `cs`: exactly
-- their hashes; or what it had, with nothing added, and the item has the first of them.
pub data UpToDate (cs before after : List Confirmation) : Type 0 where
  all_known : hashes cs ≡ hashes after → UpToDate cs before after
  none_added : after ≡ before → HashPrefix cs before → UpToDate cs before after

-- What a dispatch does for a receiver that has what was notified before.
pub record Synced (p q : PendingItem) (es : List Effect) : Type 0 where
  pub received : receive_all p.notified_confirmations es ≡ q.notified_confirmations
  pub up_to_date : UpToDate p.confirmations p.notified_confirmations q.notified_confirmations
  pub same : q.confirmations ≡ p.confirmations
  pub same_confirmed : q.confirmed ≡ p.confirmed

of_nothing : {cs ns : List Confirmation} → UpToDate cs ns [] → UpToDate cs ns ns
of_nothing {cs = []} h = none_added refl prefix_nil
of_nothing {cs = c ∷ cs} (all_known e) = absurd cc
of_nothing {cs = c ∷ cs} (none_added e k) = none_added refl k

module _ (required : ℕ) (p : PendingItem) where
  told :
      (new_fork : Bool) (cs : List Confirmation)
      → UpToDate p.confirmations p.notified_confirmations
          (if new_fork then cs else p.notified_confirmations ++ cs)
      → Synced p (notify_new required p new_fork cs).0 (notify_new required p new_fork cs).1
  unfolding notify_new notification_of
  told new_fork cs h = record {
    received = refl;
    up_to_date = h;
    same = refl;
    same_confirmed = refl;
  }

  not_told :
      (new_fork : Bool)
      → UpToDate p.confirmations p.notified_confirmations
          (if new_fork then [] else p.notified_confirmations ++ [])
      → UpToDate p.confirmations p.notified_confirmations p.notified_confirmations
  not_told true h = of_nothing h
  not_told false h =
      subst (UpToDate p.confirmations p.notified_confirmations)
        (append-nil p.notified_confirmations) h

  told_if_new :
      (new_fork : Bool) (cs : List Confirmation)
      → UpToDate p.confirmations p.notified_confirmations
          (if new_fork then cs else p.notified_confirmations ++ cs)
      → Synced p (notify_if_new required p new_fork cs).0 (notify_if_new required p new_fork cs).1
  unfolding notify_if_new
  told_if_new new_fork (c ∷ cs) h = told new_fork (c ∷ cs) h
  told_if_new new_fork [] h =
      if_both (λ (x : PendingItem × List Effect). Synced p x.0 x.1) p.confirmed
        (notify_new required p new_fork []) (p, []) (λ _. told new_fork [] h)
        (λ _. record {
          received = refl;
          up_to_date = not_told new_fork h;
          same = refl;
          same_confirmed = refl;
        })

  after_removal :
      (b : Bool) (q : PendingItem) (es : List Effect) → Synced p q es → Synced p q (removal b ++ es)
  after_removal true q es h = record {
    received = h.received;
    up_to_date = h.up_to_date;
    same = h.same;
    same_confirmed = h.same_confirmed;
  }
  after_removal false q es h = h

  extended :
      (ns more : List Confirmation)
      → (hashes p.confirmations ≡ hashes (ns ++ more))
        ⊎ ((more ≡ []) × HashPrefix p.confirmations ns)
      → UpToDate p.confirmations ns (ns ++ more)
  extended ns more (inl h) = all_known h
  extended ns more (inr h) =
      none_added (ap (λ (ms : List Confirmation). ns ++ ms) h.0 ∙ append-nil ns) h.1

  Found-new :
      (x : Bool × List Confirmation) (ns : List Confirmation)
      → Found p.confirmations p.confirmations ns x
      → UpToDate p.confirmations ns (if is_empty ns || x.0 then x.1 else ns ++ x.1)
  Found-new (true, more) [] h = all_known (ap hashes (sym h))
  Found-new (true, more) (n ∷ ns) h = all_known (ap hashes (sym h))
  Found-new (false, more) [] h = extended [] more h
  Found-new (false, more) (n ∷ ns) h = extended (n ∷ ns) more h

  -- If a receiver holds the confirmations that were notified before, then after a dispatch it holds
  -- those of the item's record, and they are exactly the item's confirmations, by their hashes; or
  -- nothing was added to what it held, and the item's confirmations are the first of those.
  pub dispatch_confirmations-Synced :
      Synced p (dispatch_confirmations required p).0 (dispatch_confirmations required p).1
  unfolding dispatch_confirmations new_confirmations
  dispatch_confirmations-Synced =
      let x = additional p.confirmations p.confirmations p.notified_confirmations in
      let fork = is_empty p.notified_confirmations || x.0 in
      after_removal p.confirmed _ _ (
        told_if_new fork x.1 (
          Found-new x p.notified_confirmations
            (additional-Found p.confirmations p.confirmations p.notified_confirmations)))
