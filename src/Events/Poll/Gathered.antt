-- ===== src/Events/Poll/Gathered.antt =====
-- What a batch holds: the events that were taken, in their order, and the last checkpoint of each
-- listener.
use firefly_transaction_mana.Prelude.{
  ℕ, ◌≤◌, ◌<◌, String, ◌≡◌, ◌∙◌, refl, sym, ap, Bool, true, false, Option, none, some, List, [],
  ◌∷◌, ◌++◌, map, length, length-append, length-map, str_eq, or_else, or_else_assoc, arith,
  if◌then◌else◌,
}
use mathlib.Core.Path.{subst}
use mathlib.Core.List.{append-nil, append_assoc}
use firefly_transaction_mana.Events.{Checkpoint, EsListener, ListenerEvent, EventWithContext, Batch}
use firefly_transaction_mana.Events.Poll.{
  Checked, taken, dropped, nil_listener_id, put_checkpoint, batch_or_new, add_to_batch, Poll,
  arrived, timer, cancelled, Polled, polled, poll_cancelled, poll_panic, still_polling, is_full,
  end_or_go, after_event, check_confirmed_event_for_batch, batch_poll,
}

-- An event that was taken, with its listener and its checkpoint.
pub record Item : Type 0 where
  pub listener : EsListener
  pub event : EventWithContext
  pub checkpoint : Option Checkpoint

abbrev pub items_of : Option Checkpoint → Checked → List Item
items_of c (taken l ev) = record { listener = l; event = ev; checkpoint = c } ∷ []
items_of c _ = []

-- The checkpoint of a listener in a list of entries, the latest entry first.
unfoldable pub find_checkpoint : String → List (String × Checkpoint) → Option Checkpoint
find_checkpoint id [] = none
find_checkpoint id ((k, c) ∷ cs) = if str_eq k id then some c else find_checkpoint id cs

abbrev pub own_checkpoint : String → Item → Option Checkpoint
own_checkpoint id x = if str_eq x.listener.id id then x.checkpoint else none

-- The checkpoint of the last item of a listener that has one.
unfoldable pub last_checkpoint_of : String → List Item → Option Checkpoint
last_checkpoint_of id [] = none
last_checkpoint_of id (x ∷ xs) = or_else (last_checkpoint_of id xs) (own_checkpoint id x)

last_checkpoint_of-snoc :
    (id : String) (xs : List Item) (x : Item)
    → last_checkpoint_of id (xs ++ x ∷ [])
      ≡ or_else (own_checkpoint id x) (last_checkpoint_of id xs)
unfolding last_checkpoint_of
last_checkpoint_of-snoc id [] x = or_else_none (own_checkpoint id x)
  where
    or_else_none : (o : Option Checkpoint) → or_else none o ≡ or_else o none
    or_else_none none = refl
    or_else_none (some c) = refl
last_checkpoint_of-snoc id (y ∷ xs) x =
    ap (λ (o : Option Checkpoint). or_else o (own_checkpoint id y))
      (last_checkpoint_of-snoc id xs x)
    ∙ or_else_assoc (last_checkpoint_of id xs) (own_checkpoint id x) (own_checkpoint id y)

-- The batch holds the events of the items, and for each listener its last checkpoint.
pub record Gathered (b : Batch) (xs : List Item) : Type 0 where
  pub events : b.events ≡ map (λ (x : Item). x.event) xs
  pub checkpoints : (id : String) → find_checkpoint id b.checkpoints ≡ last_checkpoint_of id xs

abbrev pub GatheredIn : Option Batch → List Item → Type 0
GatheredIn none xs = xs ≡ []
GatheredIn (some b) xs = Gathered b xs × (1 ≤ length xs)

find-put :
    (id k : String) (c : Option Checkpoint) (cs : List (String × Checkpoint))
    → find_checkpoint id (put_checkpoint k c cs)
      ≡ or_else (if str_eq k id then c else none) (find_checkpoint id cs)
unfolding find_checkpoint
find-put id k none cs = ground arith
find-put id k (some c) cs = ground arith

map-snoc :
    (xs : List Item) (x : Item)
    → map (λ (y : Item). y.event) (xs ++ x ∷ []) ≡ map (λ (y : Item). y.event) xs ++ x.event ∷ []
map-snoc [] x = refl
map-snoc (y ∷ xs) x = ap (λ (es : List EventWithContext). y.event ∷ es) (map-snoc xs x)

add_to_batch-Gathered :
    (b : Batch) (xs : List Item) (x : Item)
    → Gathered b xs
    → Gathered (add_to_batch x.listener x.event x.checkpoint b) (xs ++ x ∷ [])
unfolding add_to_batch
add_to_batch-Gathered b xs x g = record {
  events = ap (λ (es : List EventWithContext). es ++ x.event ∷ []) g.events ∙ sym (map-snoc xs x);
  checkpoints = λ id.
      find-put id x.listener.id x.checkpoint b.checkpoints
      ∙ ap (or_else (own_checkpoint id x)) (g.checkpoints id)
      ∙ sym (last_checkpoint_of-snoc id xs x);
}

new-Gathered :
    (n : ℕ) (o : Option Batch) (xs : List Item) → GatheredIn o xs → Gathered (batch_or_new n o) xs
unfolding find_checkpoint last_checkpoint_of
new-Gathered n none [] h = record { events = refl; checkpoints = λ id. refl }
new-Gathered n none (x ∷ xs) h = absurd cc
new-Gathered n (some b) xs h = h.0

-- What is taken of a sequence of arrivals.
abbrev pub gathered : (Checkpoint → Option Checkpoint → Bool) → List Poll → List Item
gathered less_than [] = []
gathered less_than (arrived ls e ∷ ps) =
    items_of e.checkpoint (check_confirmed_event_for_batch less_than ls e) ++ gathered less_than ps
gathered less_than (_ ∷ ps) = gathered less_than ps

-- How a poll ends that had taken `before`: with what was taken up to some point `used`, no more
-- than `max` items; it ends for a full batch, or for a timer.
pub data PollEnd (less_than : Checkpoint → Option Checkpoint → Bool) (max : ℕ) (before : List Item)
    (ps : List Poll) : Polled → Type 0 where
  ended :
      (o : Option Batch) (used later : List Poll)
      → ps ≡ used ++ later
      → GatheredIn o (before ++ gathered less_than used)
      → length (before ++ gathered less_than used) ≤ max
      → PollEnd less_than max before ps (polled o)
  was_cancelled : PollEnd less_than max before ps poll_cancelled
  panicked : PollEnd less_than max before ps poll_panic
  goes_on :
      (o : Option Batch)
      → GatheredIn o (before ++ gathered less_than ps)
      → PollEnd less_than max before ps (still_polling o)

module _ (less_than : Checkpoint → Option Checkpoint → Bool) (max n : ℕ) where
  moved :
      (before : List Item) (p : Poll) (xs : List Item) (used : List Poll)
      → ((qs : List Poll) → gathered less_than (p ∷ qs) ≡ xs ++ gathered less_than qs)
      → (before ++ xs) ++ gathered less_than used ≡ before ++ gathered less_than (p ∷ used)
  moved before p xs used g =
      append_assoc before xs (gathered less_than used)
      ∙ ap (λ (ys : List Item). before ++ ys) (sym (g used))

  -- A poll that goes on after an arrival, seen from before the arrival.
  later_end :
      (before : List Item) (p : Poll) (xs : List Item) (ps : List Poll) (r : Polled)
      → ((qs : List Poll) → gathered less_than (p ∷ qs) ≡ xs ++ gathered less_than qs)
      → PollEnd less_than max (before ++ xs) ps r
      → PollEnd less_than max before (p ∷ ps) r
  later_end before p xs ps r g (ended o used later q h k) =
      let same = moved before p xs used g in
      ended o (p ∷ used) later (ap (λ (l : List Poll). p ∷ l) q) (subst (GatheredIn o) same h)
        (subst (λ (ys : List Item). length ys ≤ max) same k)
  later_end before p xs ps r g was_cancelled = was_cancelled
  later_end before p xs ps r g panicked = panicked
  later_end before p xs ps r g (goes_on o h) =
      goes_on o (subst (GatheredIn o) (moved before p xs ps g) h)

  -- The loop ends here, with what was taken before and at this arrival.
  ends_now :
      (before : List Item) (p : Poll) (xs : List Item) (ps : List Poll) (o : Option Batch)
      → ((qs : List Poll) → gathered less_than (p ∷ qs) ≡ xs ++ gathered less_than qs)
      → GatheredIn o (before ++ xs)
      → length (before ++ xs) ≤ max
      → PollEnd less_than max before (p ∷ ps) (polled o)
  ends_now before p xs ps o g h k =
      let same : before ++ xs ≡ before ++ gathered less_than (p ∷ []) =
        ap (λ (ys : List Item). before ++ ys) (sym (append-nil xs) ∙ sym (g [])) in
      ended o (p ∷ []) ps refl (subst (GatheredIn o) same h)
        (subst (λ (ys : List Item). length ys ≤ max) same k)

  length-Gathered : (b : Batch) (xs : List Item) → Gathered b xs → length b.events ≡ length xs
  length-Gathered b xs g = ap length g.events ∙ length-map (λ (x : Item). x.event) xs

  abbrev Goes : List Item → List Poll → (Option Batch → Polled) → Type 0
  Goes before ps go =
      (o : Option Batch) (xs : List Item)
      → GatheredIn o xs
      → length xs < max
      → PollEnd less_than max xs ps (go o)

  not_full :
      (o : Option Batch) (before : List Item)
      → GatheredIn o before
      → length before < max
      → is_full max o ≡ false
  not_full none before g l = refl
  not_full (some b) before g l = ground (arith, length-Gathered b before g.0, l)

  kept_going :
      (t : Bool) (o : Option Batch) (before : List Item) (ls : List EsListener) (e : ListenerEvent)
      (ps : List Poll) (go : Option Batch → Polled)
      → is_full max o ≡ t
      → check_confirmed_event_for_batch less_than ls e ≡ dropped
      → GatheredIn o before
      → length before < max
      → Goes before ps go
      → PollEnd less_than max before (arrived ls e ∷ ps) (end_or_go t o go)
  kept_going true o before ls e ps go f q g l k = ground (arith, f, not_full o before g l)
  kept_going false o before ls e ps go f q g l k =
      later_end before (arrived ls e) [] ps (go o) (λ qs. rw q refl)
        (subst (λ (ys : List Item). PollEnd less_than max ys ps (go o)) (sym (append-nil before))
          (k o before g l))

  grown :
      (t : Bool) (b : Batch) (before : List Item) (x : Item) (ls : List EsListener)
      (e : ListenerEvent) (ps : List Poll) (go : Option Batch → Polled)
      → is_full max (some b) ≡ t
      → ((qs : List Poll)
          → gathered less_than (arrived ls e ∷ qs) ≡ (x ∷ []) ++ gathered less_than qs)
      → Gathered b (before ++ x ∷ [])
      → length before < max
      → Goes before ps go
      → PollEnd less_than max before (arrived ls e ∷ ps) (end_or_go t (some b) go)
  grown true b before x ls e ps go f q h l k =
      let size = length-append before (x ∷ []) in
      ends_now before (arrived ls e) (x ∷ []) ps (some b) q (h, omega (arith, size))
        (omega (arith, size, l))
  grown false b before x ls e ps go f q h l k =
      let size = length-append before (x ∷ []) in
      later_end before (arrived ls e) (x ∷ []) ps (go (some b)) q (
        k (some b) (before ++ x ∷ []) (h, omega (arith, size))
          (ground (arith, f, length-Gathered b (before ++ x ∷ []) h)))

  after_event-PollEnd :
      (o : Option Batch) (before : List Item) (ls : List EsListener) (e : ListenerEvent)
      (c : Checked) (ps : List Poll) (go : Option Batch → Polled)
      → check_confirmed_event_for_batch less_than ls e ≡ c
      → GatheredIn o before
      → length before < max
      → Goes before ps go
      → PollEnd less_than max before (arrived ls e ∷ ps) (after_event max n o e.checkpoint c go)
  unfolding after_event
  after_event-PollEnd o before ls e nil_listener_id ps go q g l k = panicked
  after_event-PollEnd o before ls e dropped ps go q g l k =
      kept_going (is_full max o) o before ls e ps go refl q g l k
  after_event-PollEnd o before ls e (taken li ev) ps go q g l k =
      let x : Item = record { listener = li; event = ev; checkpoint = e.checkpoint } in
      let b = add_to_batch li ev e.checkpoint (batch_or_new n o) in
      let h = add_to_batch-Gathered (batch_or_new n o) before x (new-Gathered n o before g) in
      grown (is_full max (some b)) b before x ls e ps go refl (λ qs. rw q refl) h l k

  -- A poll that meets these arrivals ends as stated, if it had taken fewer than `max` items.
  pub batch_poll-PollEnd :
      (o : Option Batch) (before : List Item) (ps : List Poll)
      → GatheredIn o before
      → length before < max
      → PollEnd less_than max before ps (batch_poll less_than max n o ps)
  unfolding batch_poll
  batch_poll-PollEnd o before [] g l = goes_on o (subst (GatheredIn o) (sym (append-nil before)) g)
  batch_poll-PollEnd o before (timer ∷ ps) g l =
      ends_now before timer [] ps o (λ qs. refl) (subst (GatheredIn o) (sym (append-nil before)) g)
        (subst (λ (ys : List Item). length ys ≤ max) (sym (append-nil before)) (omega (arith, l)))
  batch_poll-PollEnd o before (cancelled ∷ ps) g l = was_cancelled
  batch_poll-PollEnd o before (arrived ls e ∷ ps) g l =
      after_event-PollEnd o before ls e (check_confirmed_event_for_batch less_than ls e) ps
        (λ b'. batch_poll less_than max n b' ps) refl g l
        (λ o' xs g' l'. batch_poll-PollEnd o' xs ps g' l')
