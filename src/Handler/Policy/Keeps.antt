-- ===== src/Handler/Policy/Keeps.antt =====
-- What a run of the policy engine leaves alone.
use firefly_transaction_mana.Prelude.{◌≡◌, Bool, false, Option, none, some, arith}
use firefly_transaction_mana.Tx.{ManagedTx}
use firefly_transaction_mana.Handler.{
  Error, Receipt, transaction_hash_added, transaction_hash_removed,
}
use firefly_transaction_mana.Handler.Exec.{
  Toolkit, Config, Effect, send_transaction, send_event, Run, attempt,
}
use firefly_transaction_mana.Handler.Relations.{
  Keeps, Keeps-refl, Keeps-trans, bind-rel, select-skip, attempt-rel, emit-Keeps,
}
use firefly_transaction_mana.Handler.Submit.{process_transaction}
use firefly_transaction_mana.Handler.Submit.Keeps.{process_transaction-Keeps}
use firefly_transaction_mana.Handler.Policy.{
  tracked, forget_hash, add_hash, track_hash, note_cycle, after_policy, drive_policy, run_policy,
}

module _ (t : Effect → Bool) (t-send : (m : ManagedTx) → t (send_transaction m) ≡ false)
    (t-added : (m : ManagedTx) (o : Option Receipt)
      → t (send_event transaction_hash_added m o) ≡ false)
    (t-removed : (m : ManagedTx) (o : Option Receipt)
      → t (send_event transaction_hash_removed m o) ≡ false)
    (tk : Toolkit) where
  tracked-Keeps : (o : Option Error) (r : Run) → Keeps t r (tracked tk o r).1
  unfolding tracked
  tracked-Keeps none r = Keeps-refl t r
  tracked-Keeps (some e) r = Keeps-refl t r

  forget_hash-Keeps : (r : Run) → Keeps t r (forget_hash r).1
  unfolding forget_hash
  forget_hash-Keeps r = ground (
    arith,
    select-skip t r.effects
        (send_event transaction_hash_removed
          (record (r.pending.mtx) { transaction_hash = r.pending.tracking_transaction_hash }) none)
        (t-removed _ _),
  )

  add_hash-Keeps : (r : Run) → Keeps t r (add_hash tk r).1
  unfolding add_hash
  add_hash-Keeps r = emit-Keeps t _ (tracked tk _) (t-added _ _) (tracked-Keeps _) r

  track_hash-Keeps : (r : Run) → Keeps t r (track_hash tk r).1
  unfolding track_hash
  track_hash-Keeps r = ground (
    arith,
    bind-rel (Keeps t) (Keeps-trans t) forget_hash (λ _. add_hash tk) forget_hash-Keeps
        (λ _. add_hash-Keeps) r,
  )

  note_cycle-Keeps : (r : Run) → Keeps t r (note_cycle tk r).1
  unfolding note_cycle
  note_cycle-Keeps r = Keeps-refl t r

  after_policy-Keeps : (o : Option Error) (r : Run) → Keeps t r (after_policy tk o r).1
  unfolding after_policy
  after_policy-Keeps (some e) r = Keeps-refl t r
  after_policy-Keeps none r =
      bind-rel (Keeps t) (Keeps-trans t) (track_hash tk) _ track_hash-Keeps (λ _. note_cycle-Keeps)
        r

  drive_policy-Keeps : (cfg : Config) (r : Run) → Keeps t r (drive_policy tk cfg r).1
  unfolding drive_policy
  drive_policy-Keeps cfg =
      bind-rel (Keeps t) (Keeps-trans t) (attempt (process_transaction tk cfg)) _
        (λ s. attempt-rel (Keeps t) s _ (process_transaction-Keeps t t-send tk cfg s))
        (λ o.
          bind-rel (Keeps t) (Keeps-trans t) (after_policy tk o) _ (after_policy-Keeps o)
            (λ _. Keeps-refl t))

  -- A run of the policy engine keeps the status, and makes none of the calls that `t` tells.
  pub run_policy-Keeps : (cfg : Config) (r : Run) → Keeps t r (run_policy tk cfg r).1
  unfolding run_policy
  run_policy-Keeps cfg r = ground (arith, drive_policy-Keeps cfg r)
