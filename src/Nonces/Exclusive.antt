-- ===== src/Nonces/Exclusive.antt =====
-- One goroutine at a time holds a signer's next nonce; and two kinds of insertion block each other.
use mathlib.Core.Path.{subst}
use firefly_transaction_mana.Prelude.{
  ℕ, ◌≡◌, ◌∙◌, refl, sym, ap, Bool, true, false, Option, none, some, List, [], ◌∷◌, ◌==◌, arith,
  if◌then◌else◌,
}
use firefly_transaction_mana.Nonces.{
  Place, single_start, single_lookup, single_write, batch_start, batch_locked, batch_write,
  finished, Locks, goes_to, unless_held, step_from, or_same, run,
}

-- A goroutine at this place has been given the nonce, and has not yet given it back.
abbrev pub has_nonce : Place → Bool
has_nonce single_lookup = true
has_nonce single_write = true
has_nonce batch_write = true
has_nonce _ = false

-- Whoever has the nonce is its holder.
abbrev pub HeldByHolder : Locks → Type 0
HeldByHolder s = (k : ℕ) → has_nonce (s.place k) ≡ true → s.locked_nonce ≡ some k

unless_held_keeps :
    (o : Option ℕ) (s t : Locks)
    → HeldByHolder s
    → (o ≡ none → HeldByHolder t)
    → HeldByHolder (or_same s (unless_held o t))
unless_held_keeps none s t h k = k refl
unless_held_keeps (some j) s t h k = h

module _ (i : ℕ) (s : Locks) (h : HeldByHolder s) where
  -- `i` is given the nonce, which nobody had.
  taken :
      (p : Place) (t : Locks)
      → s.locked_nonce ≡ none
      → t.locked_nonce ≡ some i
      → ((k : ℕ) → t.place k ≡ (if k == i then p else s.place k))
      → HeldByHolder t
  taken p t free held places k n = ground (arith, h k, free, held, places k, n)

  -- `i`, which had the nonce, gives it back.
  given_back :
      (t : Locks)
      → has_nonce (s.place i) ≡ true
      → ((k : ℕ) → t.place k ≡ (if k == i then finished else s.place k))
      → HeldByHolder t
  given_back t had places k n = ground (arith, h k, h i had, places k, n)

  -- `i` goes on to a place where it has the nonce only if it had it.
  moved :
      (p : Place) (t : Locks)
      → t.locked_nonce ≡ s.locked_nonce
      → (has_nonce p ≡ true → has_nonce (s.place i) ≡ true)
      → ((k : ℕ) → t.place k ≡ (if k == i then p else s.place k))
      → HeldByHolder t
  moved p t same had places k n = ground (arith, h k, h i, had, same, places k, n)

  step-HeldByHolder : (p : Place) → s.place i ≡ p → HeldByHolder (or_same s (step_from p i s))
  unfolding step_from
  step-HeldByHolder single_start e =
      unless_held_keeps s.locked_nonce s
        (record (goes_to i single_lookup s) { locked_nonce = some i }) h
        (λ f.
          taken single_lookup (record (goes_to i single_lookup s) { locked_nonce = some i }) f refl
            (λ k. refl))
  step-HeldByHolder single_lookup e =
      unless_held_keeps s.tx_mux s (goes_to i single_write s) h
        (λ f. moved single_write (goes_to i single_write s) refl (λ _. ap has_nonce e) (λ k. refl))
  step-HeldByHolder single_write e =
      unless_held_keeps s.tx_mux s (record (goes_to i finished s) { locked_nonce = none }) h
        (λ f.
          given_back (record (goes_to i finished s) { locked_nonce = none }) (ap has_nonce e)
            (λ k. refl))
  step-HeldByHolder batch_start e =
      unless_held_keeps s.tx_mux s (record (goes_to i batch_locked s) { tx_mux = some i }) h
        (λ f.
          moved batch_locked (record (goes_to i batch_locked s) { tx_mux = some i }) refl
            (λ x. ground (arith, x)) (λ k. refl))
  step-HeldByHolder batch_locked e =
      unless_held_keeps s.locked_nonce s
        (record (goes_to i batch_write s) { locked_nonce = some i }) h
        (λ f.
          taken batch_write (record (goes_to i batch_write s) { locked_nonce = some i }) f refl
            (λ k. refl))
  step-HeldByHolder batch_write e =
      given_back (record (goes_to i finished s) { locked_nonce = none; tx_mux = none })
        (ap has_nonce e) (λ k. refl)
  step-HeldByHolder finished e = h

run-HeldByHolder : (is : List ℕ) (s : Locks) → HeldByHolder s → HeldByHolder (run is s)
unfolding run
run-HeldByHolder [] s h = h
run-HeldByHolder (i ∷ more) s h =
    run-HeldByHolder more (or_same s (step_from (s.place i) i s))
      (step-HeldByHolder i s h (s.place i) refl)

-- Where nobody has the nonce at first, then after any schedule a goroutine that was given the
-- nonce and has not given it back is the one that holds its lock: no two goroutines have it.
pub run_exclusive :
    (order : List ℕ) (s : Locks) (k : ℕ)
    → ((i : ℕ) → has_nonce (s.place i) ≡ false)
    → has_nonce ((run order s).place k) ≡ true
    → (run order s).locked_nonce ≡ some k
run_exclusive order s k free = run-HeldByHolder order s (λ i n. ground (arith, free i, n)) k

-- The goroutine `i` has the nonce and is about to read the transactions, and `j` has the write lock
-- of the transactions and is about to lock the nonce.
record Crossed (i j : ℕ) (s : Locks) : Type 0 where
  place_i : s.place i ≡ single_lookup
  holder_nonce : s.locked_nonce ≡ some i
  holder_tx : s.tx_mux ≡ some j

module _ (i j : ℕ) (s : Locks) (h : HeldByHolder s) (c : Crossed i j s) where
  blocked : (o : Option ℕ) (l : ℕ) (t : Locks) → o ≡ some l → or_same s (unless_held o t) ≡ s
  blocked none l t e = ground (arith, e)
  blocked (some _) l t e = refl

  no_writer : (k : ℕ) → s.place k ≡ batch_write → s.place k ≡ single_lookup
  no_writer k e = ground (arith, h k (ap has_nonce e), c.holder_nonce, c.place_i)

  Crossed-step : (p : Place) (k : ℕ) → s.place k ≡ p → or_same s (step_from p k s) ≡ s
  unfolding step_from
  Crossed-step single_start k e = blocked s.locked_nonce i _ c.holder_nonce
  Crossed-step single_lookup k e = blocked s.tx_mux j _ c.holder_tx
  Crossed-step single_write k e = blocked s.tx_mux j _ c.holder_tx
  Crossed-step batch_start k e = blocked s.tx_mux j _ c.holder_tx
  Crossed-step batch_locked k e = blocked s.locked_nonce i _ c.holder_nonce
  Crossed-step batch_write k e = ground (arith, no_writer k e, e)
  Crossed-step finished k e = refl

  Crossed-run : (order : List ℕ) → run order s ≡ s
  unfolding run
  Crossed-run [] = refl
  Crossed-run (k ∷ more) = ap (run more) (Crossed-step (s.place k) k refl) ∙ Crossed-run more

took : (s t : Locks) (o : Option ℕ) → o ≡ none → or_same s (unless_held o t) ≡ t
took s t none e = refl
took s t (some h) e = ground (arith, e)

module _ (i j : ℕ) (s : Locks) (different : (j == i) ≡ false) where
  -- The states after the first step of `i`, and after the first of `j` then.
  abbrev with_nonce : Locks
  with_nonce = record (goes_to i single_lookup s) { locked_nonce = some i }

  abbrev with_both : Locks
  with_both = record (goes_to j batch_locked with_nonce) { tx_mux = some j }

  first_step :
      s.locked_nonce ≡ none
      → s.place i ≡ single_start
      → or_same s (step_from (s.place i) i s) ≡ with_nonce
  unfolding step_from
  first_step nonce e =
      ap (λ (p : Place). or_same s (step_from p i s)) e ∙ took s with_nonce s.locked_nonce nonce

  second_step :
      s.tx_mux ≡ none
      → s.place j ≡ batch_start
      → or_same with_nonce (step_from (with_nonce.place j) j with_nonce) ≡ with_both
  unfolding step_from
  second_step tx e =
      let at_start : with_nonce.place j ≡ batch_start = ground (arith, different, e) in
      ap (λ (p : Place). or_same with_nonce (step_from p j with_nonce)) at_start
      ∙ took with_nonce with_both s.tx_mux tx

  with_both-Crossed : Crossed i j with_both
  with_both-Crossed = record {
    place_i = ground (arith, different);
    holder_nonce = refl;
    holder_tx = refl;
  }

-- Where both locks are free and nobody has the nonce, let a single insertion `i` take a step, and
-- then a batch insertion `j` of the same signer: from then on no goroutine takes a step any more,
-- whatever the schedule.
pub insert_deadlock :
    (i j : ℕ) (order : List ℕ) (s : Locks)
    → (j == i) ≡ false
    → s.tx_mux ≡ none
    → s.locked_nonce ≡ none
    → s.place i ≡ single_start
    → s.place j ≡ batch_start
    → ((k : ℕ) → has_nonce (s.place k) ≡ false)
    → run (i ∷ j ∷ order) s ≡ run (i ∷ j ∷ []) s
unfolding run
insert_deadlock i j order s d tx nonce pi pj free =
    let e =
      ap (λ (t : Locks). or_same t (step_from (t.place j) j t)) (first_step i j s d nonce pi)
      ∙ second_step i j s d tx pj in
    Crossed-run i j (run (i ∷ j ∷ []) s)
      (run-HeldByHolder (i ∷ j ∷ []) s (λ k n. ground (arith, free k, n)))
      (subst (Crossed i j) (sym e) (with_both-Crossed i j s d)) order
