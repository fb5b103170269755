-- ===== src/Events/Checkpoints/Advance.antt =====
-- How far a checkpoint moves, and that what is written is what the listeners have.
use firefly_transaction_mana.Prelude.{
  String, ◌≡◌, ◌∙◌, refl, ap, true, false, Option, none, some, List, [], ◌∷◌, inl, inr, or_else,
  str_eq, eq_iff, arith, if_both, Bool-cases,
}
use mathlib.Core.Path.{subst}
use firefly_transaction_mana.Events.{Checkpoint, source_hwm, EsListener, Batch}
use firefly_transaction_mana.Events.Poll.Gathered.{find_checkpoint}
use firefly_transaction_mana.Events.Poll.{find_listener}
use firefly_transaction_mana.Events.Checkpoints.{
  Hwm, HwmAnswer, hwm, hwm_error, CheckpointToolkit, apply_batch, is_stale, is_safe, has_passed,
  locked_hwm_safe_to_apply, check_update_hwm_checkpoint, refresh_listener, batch_checkpoints,
  advance_listener, entry_of, advance_all, generate_checkpoint,
}

-- The scan position `res` may stand for a listener: the last event that the connector has passed on
-- is not after the position that was committed, or nothing is in flight where it tells no event.
pub data SafeHwm (tk : CheckpointToolkit) (id : String) (committed : Option Checkpoint) (res : Hwm)
    : Type 0 where
  detected_before :
      (c d : Checkpoint)
      → res.last_detected ≡ some d
      → committed ≡ some c
      → tk.less_than c (some d) ≡ false
      → SafeHwm tk id committed res
  none_in_flight : res.last_detected ≡ none → tk.in_flight id ≡ false → SafeHwm tk id committed res

-- What becomes of a listener with the committed position `committed`: it is at that position, with
-- the same entry; or it is at the scan position of the connector, which is safe.
pub data Advanced (tk : CheckpointToolkit) (id : String) (committed : Option Checkpoint)
    : EsListener × Option Checkpoint → Type 0 where
  at_committed :
      (x : EsListener × Option Checkpoint)
      → x.0.checkpoint ≡ committed
      → x.1 ≡ committed
      → Advanced tk id committed x
  at_hwm :
      (x : EsListener × Option Checkpoint) (res : Hwm)
      → tk.answer id ≡ hwm res
      → SafeHwm tk id committed res
      → x.0.checkpoint ≡ res.checkpoint
      → x.0.checkpoint_source ≡ source_hwm
      → x.1 ≡ or_else res.checkpoint committed
      → Advanced tk id committed x

module _ (tk : CheckpointToolkit) where
  is_safe-SafeHwm :
      (l : EsListener) (res : Hwm) (d : Option Checkpoint) (c : Option Checkpoint)
      → res.last_detected ≡ d
      → l.checkpoint ≡ c
      → is_safe tk l d ≡ true
      → SafeHwm tk l.id l.checkpoint res
  is_safe-SafeHwm l res none c e f h = none_in_flight e (ground (arith, h))
  is_safe-SafeHwm l res (some d) (some c) e f h =
      detected_before c d e f (ground (arith, passed_now l (some c) f d h))
    where
      passed_now :
          (l : EsListener) (o : Option Checkpoint)
          → l.checkpoint ≡ o
          → (d : Checkpoint) → has_passed tk l.checkpoint d ≡ true
          → has_passed tk o d ≡ true
      passed_now l o f d h = subst (λ (p : Option Checkpoint). has_passed tk p d ≡ true) f h
  is_safe-SafeHwm l res (some d) none e f h =
      absurd (ground (arith, subst (λ (p : Option Checkpoint). has_passed tk p d ≡ true) f h))

  or_else_same : (o : Option Checkpoint) → or_else o o ≡ o
  or_else_same none = refl
  or_else_same (some c) = refl

  updated-Advanced :
      (l : EsListener) (a : HwmAnswer)
      → tk.answer l.id ≡ a
      → Advanced tk l.id l.checkpoint (
        (check_update_hwm_checkpoint tk l a).0,
        or_else (check_update_hwm_checkpoint tk l a).1 l.checkpoint,
      )
  unfolding check_update_hwm_checkpoint locked_hwm_safe_to_apply
  updated-Advanced l hwm_error e =
      at_committed (l, or_else l.checkpoint l.checkpoint) refl (or_else_same l.checkpoint)
  updated-Advanced l (hwm res) e =
      if_both
        (λ (x : EsListener × Option Checkpoint).
          Advanced tk l.id l.checkpoint (x.0, or_else x.1 l.checkpoint))
        (is_safe tk l res.last_detected) _ _
        (λ h.
          at_hwm _ res e (is_safe-SafeHwm l res res.last_detected l.checkpoint refl refl h) refl
            refl refl)
        (λ _. at_committed (l, or_else l.checkpoint l.checkpoint) refl (or_else_same l.checkpoint))

  refresh-Advanced : (l : EsListener) → Advanced tk l.id l.checkpoint (refresh_listener tk l)
  unfolding refresh_listener
  refresh-Advanced l =
      if_both (Advanced tk l.id l.checkpoint) (is_stale tk l) _ _
        (λ _. updated-Advanced l (tk.answer l.id) refl)
        (λ _. at_committed (l, l.checkpoint) refl refl)

  applied-Advanced :
      (l : EsListener) (c : Option Checkpoint)
      → Advanced tk l.id (or_else c l.checkpoint) (refresh_listener tk (apply_batch tk c l))
  unfolding apply_batch
  applied-Advanced l none = refresh-Advanced l
  applied-Advanced l (some c) = refresh-Advanced (apply_batch tk (some c) l)

  -- When a checkpoint is made, the position of a listener becomes that of its last event in the
  -- batch, or stays if it has none, and its entry is that position; or the connector is asked, and
  -- the position becomes the one that it has scanned to, only if no event that it has passed on is
  -- after the committed position, or, where it tells no such event, nothing is in flight.
  pub advance_listener-Advanced :
      (b : Option Batch) (l : EsListener)
      → Advanced tk l.id
          (or_else (find_checkpoint l.id (batch_checkpoints b)) l.checkpoint)
          (advance_listener tk b l)
  unfolding advance_listener
  advance_listener-Advanced b l = applied-Advanced l (find_checkpoint l.id (batch_checkpoints b))

-- No ID stands twice.
abbrev pub IsOtherThan : String → List EsListener → Type 0
IsOtherThan id [] = Unit {0}
IsOtherThan id (l ∷ ls) = (str_eq l.id id ≡ false) × IsOtherThan id ls

abbrev pub DistinctIds : List EsListener → Type 0
DistinctIds [] = Unit {0}
DistinctIds (l ∷ ls) = IsOtherThan l.id ls × DistinctIds ls

module _ (tk : CheckpointToolkit) (b : Option Batch) where
  find-entry_other :
      (id k : String) (c : Option Checkpoint) (cs : List (String × Checkpoint))
      → str_eq k id ≡ false
      → find_checkpoint id (entry_of k c cs) ≡ find_checkpoint id cs
  unfolding find_checkpoint
  find-entry_other id k none cs h = refl
  find-entry_other id k (some c) cs h = ground (arith, h)

  find-entry_none :
      (id : String) (ls : List EsListener)
      → IsOtherThan id ls
      → find_checkpoint id (advance_all tk b ls).1 ≡ none
  unfolding advance_all find_checkpoint
  find-entry_none id [] h = refl
  find-entry_none id (l ∷ ls) h =
      find-entry_other id l.id (advance_listener tk b l).1 (advance_all tk b ls).1 h.0
      ∙ find-entry_none id ls h.1

  find-entry_own :
      (id k : String) (c : Option Checkpoint) (cs : List (String × Checkpoint))
      → str_eq k id ≡ true
      → find_checkpoint id cs ≡ none
      → find_checkpoint id (entry_of k c cs) ≡ c
  unfolding find_checkpoint
  find-entry_own id k none cs e h = h
  find-entry_own id k (some c) cs e h = ground (arith, e)

  same_id_other :
      (id k : String) (ls : List EsListener)
      → str_eq k id ≡ true
      → IsOtherThan k ls
      → IsOtherThan id ls
  same_id_other id k ls e h = subst (λ (i : String). IsOtherThan i ls) ((eq_iff k id).0 e) h

  -- The entry of a listener is the one that was made for it.
  pub find-entry :
      (id : String) (ls : List EsListener) (l : EsListener)
      → DistinctIds ls
      → find_listener id ls ≡ some l
      → find_checkpoint id (generate_checkpoint tk b ls).1.listeners ≡ (advance_listener tk b l).1
  unfolding generate_checkpoint advance_all find_listener
  find-entry id [] l d h = absurd cc
  find-entry id (k ∷ ls) l d h = elim (Bool-cases (str_eq k.id id)) [
    | inl e ↦
        find-entry_own id k.id (advance_listener tk b k).1 (advance_all tk b ls).1 e
          (find-entry_none id ls (same_id_other id k.id ls e d.0))
        ∙ ap (λ (x : EsListener). (advance_listener tk b x).1) (ground (arith, e, h))
    | inr e ↦
        find-entry_other id k.id (advance_listener tk b k).1 (advance_all tk b ls).1 e
        ∙ find-entry id ls l d.1 (ground (arith, e, h))
  ]
