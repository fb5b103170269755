-- ===== src/Handler/Loop/Responses.antt =====
-- Every API request that is taken from the queue is answered, in order.
use mathlib.Core.List.{append-nil, append_assoc}
use firefly_transaction_mana.Prelude.{
  ℕ, suc, ◌≡◌, ◌∙◌, refl, sym, ap, true, false, none, some, List, [], ◌∷◌, ◌++◌, ◌⊎◌, inl, inr,
  Bool-cases, Option-cases, if_both,
}
use firefly_transaction_mana.Handler.{PendingState, Request}
use firefly_transaction_mana.Handler.Loop.{
  LoopToolkit, SimpleHandler, StoredAnswer, stored, not_read, Response, Cycle,
}
use firefly_transaction_mana.Handler.Loop.Requests.{
  Stepped, went_on, panicked, blocked, respond, is_policy_action, response_of, run_one, after_run,
  find_pending, run_request, outside_pending, outside_request, and_then, put_pending,
  process_request, process_requests, process_policy_api_requests,
}

-- The requests that were answered.
abbrev pub asked : List (Request × Response) → List Request
asked [] = []
asked ((q, s) ∷ rs) = q ∷ asked rs

asked-append :
    (rs : List (Request × Response)) (q : Request) (s : Response)
    → asked (rs ++ (q, s) ∷ []) ≡ asked rs ++ q ∷ []
asked-append [] q s = refl
asked-append ((p, r) ∷ rs) q s = ap (λ (qs : List Request). p ∷ qs) (asked-append rs q s)

abbrev pub AllWithChannel : List Request → Type 0
AllWithChannel [] = Unit {0}
AllWithChannel (q ∷ qs) = (q.has_response_channel ≡ true) × AllWithChannel qs

abbrev pub OneWithoutChannel : List Request → Type 0
OneWithoutChannel [] = ⊥
OneWithoutChannel (q ∷ qs) = (q.has_response_channel ≡ false) ⊎ OneWithoutChannel qs

-- How a part of a cycle that starts from `c` and is to answer `qs` ends: with a response to each of
-- them, in their order, after those that were there; in a panic; or blocked, where one of them has
-- no response channel yet.
pub data Answered (qs : List Request) (c : Cycle) : Stepped Cycle → Type 0 where
  answered :
      (d : Cycle)
      → asked d.responses ≡ asked c.responses ++ qs
      → AllWithChannel qs
      → Answered qs c (went_on d)
  by_panic : Answered qs c panicked
  by_block : OneWithoutChannel qs → Answered qs c blocked

-- `c'` has the responses of `c`.
respond-Answered :
    (q : Request) (s : Response) (c c' : Cycle)
    → c'.responses ≡ c.responses
    → Answered (q ∷ []) c (respond q s c')
respond-Answered q s c c' h =
    if_both (Answered (q ∷ []) c) q.has_response_channel _ _
      (λ e.
        answered _
          (asked-append c'.responses q s
            ∙ ap (λ (rs : List (Request × Response)). asked rs ++ q ∷ []) h)
          (e, tt))
      (λ e. by_block (inl e))

module _ (tk : LoopToolkit) where
  run_request-Answered :
      (q : Request) (p : PendingState) (keep : PendingState → SimpleHandler → SimpleHandler)
      (c : Cycle)
      → Answered (q ∷ []) c (run_request tk q p keep c)
  unfolding run_request after_run
  run_request-Answered q p keep c = elim (Bool-cases (is_policy_action q.request_type)) [
    | inl e ↦
        rw e
          (elim (Option-cases
            (response_of (run_one tk p (some q) c).0 (run_one tk p (some q) c).1.pending q)) [
              | inl n ↦ rw n by_panic
              | inr (s, n) ↦ rw n (respond-Answered q s c _ refl)
            ])
    | inr e ↦ rw e (respond-Answered q _ c c refl)
  ]

  outside_request-Answered :
      (q : Request) (a : StoredAnswer) (c : Cycle) → Answered (q ∷ []) c (outside_request tk q a c)
  unfolding outside_request
  outside_request-Answered q (not_read e) c = respond-Answered q _ c c refl
  outside_request-Answered q (stored none) c = respond-Answered q _ c c refl
  outside_request-Answered q (stored (some m)) c =
      run_request-Answered q (outside_pending m) (λ _ h. h) c

  process_request-Answered :
      (n : ℕ) (q : Request) (c : Cycle) → Answered (q ∷ []) c (process_request tk n q c)
  unfolding process_request
  process_request-Answered n q c = elim (Option-cases (find_pending q.tx_id c.handler.inflight)) [
    | inl e ↦
        rw (e, process_request) (outside_request-Answered q (tk.get_transaction_by_id n q.tx_id) c)
    | inr (p, e) ↦
        rw (e, process_request)
          (run_request-Answered q p
            (λ p' h. record h { inflight = put_pending q.tx_id p' h.inflight }) c)
  ]

  answered_later :
      (q : Request) (qs : List Request) (c d : Cycle) (x : Stepped Cycle)
      → asked d.responses ≡ asked c.responses ++ q ∷ []
      → q.has_response_channel ≡ true
      → Answered qs d x
      → Answered (q ∷ qs) c x
  answered_later q qs c d _ e w (answered d' e' w') =
      answered d'
        (e' ∙ ap (λ (ps : List Request). ps ++ qs) e ∙ append_assoc (asked c.responses) (q ∷ []) qs)
        (w, w')
  answered_later q qs c d _ e w by_panic = by_panic
  answered_later q qs c d _ e w (by_block k) = by_block (inr k)

  and_then-Answered :
      (q : Request) (qs : List Request) (c : Cycle) (x : Stepped Cycle) (f : Cycle → Stepped Cycle)
      → Answered (q ∷ []) c x
      → ((d : Cycle) → Answered qs d (f d))
      → Answered (q ∷ qs) c (and_then x f)
  and_then-Answered q qs c _ f (answered d e w) rest = answered_later q qs c d (f d) e w.0 (rest d)
  and_then-Answered q qs c _ f by_panic rest = by_panic
  and_then-Answered q qs c _ f (by_block (inl k)) rest = by_block (inl k)
  and_then-Answered q qs c _ f (by_block (inr k)) rest = absurd k

  process_requests-Answered :
      (n : ℕ) (qs : List Request) (c : Cycle) → Answered qs c (process_requests tk n qs c)
  unfolding process_requests
  process_requests-Answered n [] c = answered c (sym (append-nil (asked c.responses))) tt
  process_requests-Answered n (q ∷ qs) c =
      and_then-Answered q qs c (process_request tk n q c) (process_requests tk (suc n) qs)
        (process_request-Answered n q c) (process_requests-Answered (suc n) qs)

  from_queue :
      (qs : List Request) (c c' : Cycle) (x : Stepped Cycle)
      → c'.responses ≡ c.responses
      → Answered qs c' x
      → Answered qs c x
  from_queue qs c c' _ h (answered d e w) =
      answered d (e ∙ ap (λ (rs : List (Request × Response)). asked rs ++ qs) h) w
  from_queue qs c c' _ h by_panic = by_panic
  from_queue qs c c' _ h (by_block k) = by_block k

  -- A cycle that takes the queued requests sends a response to each of them, in the order of the
  -- queue, after the responses that were sent before, and then all of them have a response channel;
  -- or it ends in a panic; or it blocks, and then one of them has no response channel yet.
  pub process_policy_api_requests-Answered :
      (c : Cycle)
      → Answered c.handler.policy_engine_api_requests c (process_policy_api_requests tk c)
  unfolding process_policy_api_requests
  process_policy_api_requests-Answered c =
      from_queue c.handler.policy_engine_api_requests c _ _ refl
        (process_requests-Answered 0 c.handler.policy_engine_api_requests _)
