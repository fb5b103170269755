-- ===== src/Handler/Relations.antt =====
-- Relations between the state before and after a part of a run, one rule for each way to build one.
use mathlib.Core.List.{append-nil}
use firefly_transaction_mana.Prelude.{
  arith, ◌≡◌, ◌∙◌, refl, Bool, true, false, List, [], ◌∷◌, ◌++◌, if◌then◌else◌,
}
use firefly_transaction_mana.Handler.{process_succeeded, process_failed, deleted}
use firefly_transaction_mana.Handler.Exec.{
  Effect, update_stored, delete_stored, send_event, send_transaction, marked_stale, Run, Outcome,
  ok, err, panic, Exec, next, attempt_result,
}

-- Rules for a relation that is reflexive and transitive.
module _ (R : Run → Run → Type 0) (R-trans : (a b d : Run) → R a b → R b d → R a d) where
  pub next-rel :
      {A B : Type 0} (r : Run) (x : Outcome A × Run) (f : A → Exec B)
      → R r x.1
      → ((a : A) (s : Run) → R s (f a s).1)
      → R r (next x f).1
  next-rel r (ok a, s) f h k = R-trans r s _ h (k a s)
  next-rel r (err e, s) f h k = h
  next-rel r (panic, s) f h k = h

  pub bind-rel :
      {A B : Type 0} (m : Exec A) (f : A → Exec B)
      → ((s : Run) → R s (m s).1)
      → ((a : A) (s : Run) → R s (f a s).1)
      → (r : Run) → R r (next (m r) f).1
  bind-rel m f h k r = next-rel r (m r) f (h r) k

pub if-rel :
    {A : Type 0} (R : Run → Run → Type 0) (b : Bool) (m n : Exec A) (r : Run)
    → (b ≡ true → R r (m r).1)
    → (b ≡ false → R r (n r).1)
    → R r ((if b then m else n) r).1
if-rel R true m n r h k = h refl
if-rel R false m n r h k = k refl

pub attempt-rel :
    (R : Run → Run → Type 0) (r : Run) (x : Outcome (Unit {0}) × Run)
    → R r x.1
    → R r (attempt_result x).1
attempt-rel R r (ok a, s) h = h
attempt-rel R r (err e, s) h = h
attempt-rel R r (panic, s) h = h

-- The calls that commit a run: the writes of the transaction, the events of its end, and the mark.
abbrev pub is_commit : Effect → Bool
is_commit (update_stored _ _) = true
is_commit (delete_stored _) = true
is_commit (send_event process_succeeded _ _) = true
is_commit (send_event process_failed _ _) = true
is_commit (send_event deleted _ _) = true
is_commit marked_stale = true
is_commit _ = false

abbrev pub is_send : Effect → Bool
is_send (send_transaction _) = true
is_send _ = false

-- The effects that pass a test, in their order.
unfoldable pub select : (Effect → Bool) → List Effect → List Effect
select t [] = []
select t (e ∷ es) = let rest = select t es in if t e then e ∷ rest else rest

pub select-append :
    (t : Effect → Bool) (es ds : List Effect) → select t (es ++ ds) ≡ select t es ++ select t ds
unfolding select
select-append t [] ds = refl
select-append t (e ∷ es) ds = ground (arith, select-append t es ds)

pub select-skip :
    (t : Effect → Bool) (es : List Effect) (e : Effect)
    → t e ≡ false
    → select t (es ++ e ∷ []) ≡ select t es
unfolding select
select-skip t es e h = select-append t es (e ∷ []) ∙ rw h (append-nil _)

-- What most parts of a run leave alone: the status, the mark for removal, what the context was
-- made with, and the calls that pass the test `t`.
abbrev pub Keeps : (Effect → Bool) → Run → Run → Type 0
Keeps t r s =
    (s.pending.mtx.status ≡ r.pending.mtx.status)
    × (s.pending.remove ≡ r.pending.remove)
    × (s.ctx.confirmed ≡ r.ctx.confirmed)
    × (s.ctx.receipt ≡ r.ctx.receipt)
    × (select t s.effects ≡ select t r.effects)

pub Keeps-trans : (t : Effect → Bool) (a b d : Run) → Keeps t a b → Keeps t b d → Keeps t a d
Keeps-trans t a b d h k = (k.0 ∙ h.0, k.1 ∙ h.1, k.2 ∙ h.2, k.3 ∙ h.3, k.4 ∙ h.4)

pub Keeps-refl : (t : Effect → Bool) (r : Run) → Keeps t r r
Keeps-refl t r = (refl, refl, refl, refl, refl)

-- A call that `t` does not tell, and what follows it.
pub emit-Keeps :
    {A : Type 0} (t : Effect → Bool) (e : Effect) (m : Exec A)
    → t e ≡ false
    → ((s : Run) → Keeps t s (m s).1)
    → (r : Run) → Keeps t r (m (record r { effects = r.effects ++ e ∷ [] })).1
emit-Keeps t e m quiet h r =
    let s : Run = record r { effects = r.effects ++ e ∷ [] } in
    Keeps-trans t r s (m s).1 (refl, refl, refl, refl, select-skip t r.effects e quiet) (h s)
