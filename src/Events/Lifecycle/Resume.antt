-- ===== src/Events/Lifecycle/Resume.antt =====
-- Where a stream goes on after a restart, and after a reset of a listener.
use firefly_transaction_mana.Prelude.{
  String, ◌≡◌, ◌∙◌, refl, sym, ap, Bool, true, false, Option, none, some, List, [], ◌∷◌, str_eq,
  eq_iff, if_both, Bool-cases, inl, inr,
}
use firefly_transaction_mana.Events.{Checkpoint, EsListener, Batch}
use firefly_transaction_mana.Events.Poll.{find_listener}
use firefly_transaction_mana.Events.Poll.Gathered.{find_checkpoint}
use firefly_transaction_mana.Events.Checkpoints.{
  CheckpointToolkit, StreamCheckpoint, advance_listener, generate_checkpoint,
}
use firefly_transaction_mana.Events.Checkpoints.Advance.{DistinctIds, find-entry}
use firefly_transaction_mana.Events.Lifecycle.{Stream, not_null, restored, build_add_request}
use firefly_transaction_mana.Events.Lifecycle.Listeners.{
  delete_entry, ResetAnswers, reset_stored, reset_listener_checkpoint,
}

-- A checkpoint that was made for a listener, and that is not the text null, is the one that the
-- listener starts from when the stream is started with what was written, where the connector reads
-- its texts back, and no two listeners have the same ID.
pub build_add_request-generate_checkpoint :
    (tk : CheckpointToolkit) (b : Option Batch) (ls : List EsListener) (parses : String → Bool)
    (l : EsListener) (c : Checkpoint)
    → DistinctIds ls
    → find_listener l.id ls ≡ some l
    → (advance_listener tk b l).1 ≡ some c
    → str_eq c "null" ≡ false
    → parses c ≡ true
    → (build_add_request parses (some (generate_checkpoint tk b ls).1) l).checkpoint ≡ some c
unfolding build_add_request
build_add_request-generate_checkpoint tk b ls parses l c d h e n p =
    ap (not_null parses) (find-entry tk b l.id ls l d h ∙ e) ∙ usable
  where
    usable : not_null parses (some c) ≡ some c
    usable = rw (n, p)

find-delete_own :
    (id : String) (cs : List (String × Checkpoint)) → find_checkpoint id (delete_entry id cs) ≡ none
unfolding find_checkpoint delete_entry
find-delete_own id [] = refl
find-delete_own id ((k, c) ∷ cs) =
    if_both (λ (xs : List (String × Checkpoint)). find_checkpoint id xs ≡ none) (str_eq k id) _ _
      (λ _. find-delete_own id cs) (λ e. rw (e) (find-delete_own id cs))

find-delete_other :
    (id k : String) (cs : List (String × Checkpoint))
    → str_eq k id ≡ false
    → find_checkpoint k (delete_entry id cs) ≡ find_checkpoint k cs
unfolding find_checkpoint delete_entry
find-delete_other id k [] h = refl
find-delete_other id k ((j, c) ∷ cs) h = elim (Bool-cases (str_eq j id)) [
  | inl e ↦ rw (e, not_same e) (find-delete_other id k cs h)
  | inr e ↦ rw (e) (elim (Bool-cases (str_eq j k)) [
    | inl f ↦ rw (f) refl
    | inr f ↦ rw (f) (find-delete_other id k cs h)
  ])
]
  where
    true_false : true ≡ false → ⊥
    true_false t = absurd cc

    not_same : str_eq j id ≡ true → str_eq j k ≡ false
    not_same e = elim (Bool-cases (str_eq j k)) [
      | inl f ↦
          absurd
            (true_false (sym ((eq_iff k id).1 (sym ((eq_iff j k).0 f) ∙ (eq_iff j id).0 e)) ∙ h))
      | inr f ↦ f
    ]

reset_stored_own :
    (a : ResetAnswers) (parses : String → Bool) (id : String) (o : Option StreamCheckpoint)
    → a.written ≡ true
    → restored parses (reset_stored a id o).0 id ≡ none
reset_stored_own a parses id none w = refl
reset_stored_own a parses id (some cp) w =
    rw (w) (ap (not_null parses) (find-delete_own id cp.listeners))

reset_stored_other :
    (a : ResetAnswers) (parses : String → Bool) (id k : String) (o : Option StreamCheckpoint)
    → str_eq k id ≡ false
    → restored parses (reset_stored a id o).0 k ≡ restored parses o k
reset_stored_other a parses id k none h = refl
reset_stored_other a parses id k (some cp) h =
    if_both
      (λ (x : Option StreamCheckpoint × Bool). restored parses x.0 k ≡ restored parses (some cp) k)
      a.written _ _ (λ _. ap (not_null parses) (find-delete_other id k cp.listeners h)) (λ _. refl)

-- After a reset that the database has taken, of a stream that the API does not manage, the listener starts without a checkpoint, and any other
-- listener with the one that it had.
pub reset_forgets_one :
    (a : ResetAnswers) (s : Stream) (parses : String → Bool) (l k : EsListener)
    → s.api_managed ≡ false
    → a.read ≡ true
    → a.written ≡ true
    → str_eq k.id l.id ≡ false
    → ((build_add_request parses (reset_listener_checkpoint a l.id s).0.stored l).checkpoint ≡ none)
      × ((build_add_request parses (reset_listener_checkpoint a l.id s).0.stored k).checkpoint
          ≡ (build_add_request parses s.stored k).checkpoint)
unfolding build_add_request reset_listener_checkpoint
reset_forgets_one a s parses l k m r w h = (
  rw (m, r) (reset_stored_own a parses l.id s.stored w),
  rw (m, r) (reset_stored_other a parses l.id k.id s.stored h),
)
