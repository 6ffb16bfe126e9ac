-- ===== src/Qemu/Replies.antt =====
-- transient/qemu.py: what `send_sync` returns.
use transient.Base.{
  ℕ, ◌≡◌, refl, ap, ◌∙◌, ◌⊎◌, inl, inr, Bool, true, false, Option, none, some, List, [], ◌∷◌, ◌++◌,
  map, append-nil, arith, ◌==◌, if◌then◌else◌, ==_iff, ==_refl, Bool-cases, find?, Text,
}
use transient.Qemu.Client.{
  QmpMessage, QmpCallback, sync, QmpClient, send_async, call_all, dispatch, dispatch_by,
  dispatch_all, is_sync, response_from, or_assert, send_sync, Reach,
}
use transient.Qemu.Delivery.{
  IsOrderly, waiting_of, waiting_of_observers, waiting_of_others, receive-IsOrderly,
  request-IsOrderly, Reach-IsOrderly, calls_of,
}

abbrev pub has_id : ℕ → QmpMessage → Bool
has_id n msg = elim msg.id [ none ↦ false | some k ↦ k == n ]

response_from-append :
    (n : ℕ) (seen : Option QmpMessage) (a b : List (QmpCallback × QmpMessage))
    → response_from n seen (a ++ b) ≡ response_from n (response_from n seen a) b
response_from-append n seen [] b = refl
response_from-append n seen ((f, msg) ∷ a) b =
    response_from-append n (if is_sync n f then some msg else seen) a b

-- Calls of other callbacks do not change the response.
response_from_others :
    (n : ℕ) (seen : Option QmpMessage) (msg : QmpMessage) (fs : List QmpCallback)
    → waiting_of n fs ≡ 0
    → response_from n seen (map (λ f. (f, msg)) fs) ≡ seen
response_from_others n seen msg [] h = refl
response_from_others n seen msg (f ∷ fs) h = elim (Bool-cases (is_sync n f)) [
  | inl e ↦ absurd (ground (arith, e, h))
  | inr e ↦ rw (e, response_from) (response_from_others n seen msg fs (ground (arith, e, h)))
]

response_from-none :
    (n : ℕ) (calls : List (QmpCallback × QmpMessage))
    → calls_of n calls ≡ 0
    → response_from n none calls ≡ none
response_from-none n [] h = refl
response_from-none n ((f, msg) ∷ calls) h = elim (Bool-cases (is_sync n f)) [
  | inl e ↦ absurd (ground (arith, e, h))
  | inr e ↦ rw e (response_from-none n calls (ground (arith, e, h)))
]

module _ (n : ℕ) where
  abbrev seen_by : QmpClient → Option QmpMessage
  seen_by c = response_from n none c.called

  -- A message that is not for request `n` changes neither what its closure saw nor whether it waits.
  other-dispatch :
      (msg : QmpMessage) (c : QmpClient)
      → IsOrderly c
      → (has_id n msg ≡ false) ⊎ (c.id_callbacks n ≡ [])
      → (seen_by (dispatch msg c) ≡ seen_by c)
        × ((dispatch msg c).id_callbacks n ≡ c.id_callbacks n)
  unfolding dispatch call_all
  other-dispatch msg c v other = go msg.id msg.event other
    where
      go :
          (i : Option ℕ) (e : Option Text)
          → (elim i [ none ↦ false | some k ↦ k == n ] ≡ false) ⊎ (c.id_callbacks n ≡ [])
          → (seen_by (dispatch_by i e msg c) ≡ seen_by c)
            × ((dispatch_by i e msg c).id_callbacks n ≡ c.id_callbacks n)
      go none none o = (refl, refl)
      go none (some e) o = (
        response_from-append n none c.called (map (λ f. (f, msg)) (c.event_callbacks e))
            ∙ response_from_others n (seen_by c) msg (c.event_callbacks e)
                (waiting_of_observers n (c.event_callbacks e) (v.observers e)),
        refl,
      )
      go (some k) e o = elim (Bool-cases (n == k)) [
        | inl same ↦ elim o [
          | inl p ↦ absurd (ground (arith, same, p))
          | inr q ↦
              let eq = (==_iff n k).0 same in
              let empty : c.id_callbacks k ≡ [] = rw (← eq) q in
              (rw (empty, append-nil c.called), rw (same, q))
        ]
        | inr differ ↦ (
          response_from-append n none c.called (map (λ f. (f, msg)) (c.id_callbacks k))
              ∙ response_from_others n (seen_by c) msg (c.id_callbacks k) (
                  waiting_of_others n k (c.id_callbacks k) (λ q. cc ((==_iff n k).1 q, differ))
                    (v.own k)),
          rw differ,
        )
      ]

  -- The answer is what the closure saw last, and it does not wait any more.
  answer-dispatch :
      (msg : QmpMessage) (c : QmpClient)
      → has_id n msg ≡ true
      → c.id_callbacks n ≡ sync n ∷ []
      → (seen_by (dispatch msg c) ≡ some msg) × ((dispatch msg c).id_callbacks n ≡ [])
  unfolding dispatch call_all
  answer-dispatch msg c h w = go msg.id msg.event h
    where
      go :
          (i : Option ℕ) (e : Option Text)
          → elim i [ none ↦ false | some k ↦ k == n ] ≡ true
          → (seen_by (dispatch_by i e msg c) ≡ some msg)
            × ((dispatch_by i e msg c).id_callbacks n ≡ [])
      go none e p = cc
      go (some k) e p =
          let eq = (==_iff k n).0 p in
          let one : c.id_callbacks k ≡ sync n ∷ [] = rw eq w in
          (
            rw (one, response_from-append n none c.called ((sync n, msg) ∷ []), ==_refl n),
            rw (eq, ==_refl n),
          )

  closed :
      (msgs : List QmpMessage) (c : QmpClient)
      → IsOrderly c
      → c.id_callbacks n ≡ []
      → seen_by (dispatch_all msgs c) ≡ seen_by c
  unfolding dispatch_all
  closed [] c v w = refl
  closed (msg ∷ msgs) c v w =
      let (same, still) = other-dispatch msg c v (inr w) in
      closed msgs (dispatch msg c) (receive-IsOrderly msg c v) (still ∙ w) ∙ same

  awaited :
      (msgs : List QmpMessage) (c : QmpClient)
      → IsOrderly c
      → c.id_callbacks n ≡ sync n ∷ []
      → seen_by c ≡ none
      → seen_by (dispatch_all msgs c) ≡ find? (has_id n) msgs
  unfolding dispatch_all
  awaited [] c v w none_yet = none_yet
  awaited (msg ∷ msgs) c v w none_yet = elim (Bool-cases (has_id n msg)) [
    | inl e ↦
        let (now, done) = answer-dispatch msg c e w in
        rw e (closed msgs (dispatch msg c) (receive-IsOrderly msg c v) done ∙ now)
    | inr e ↦
        let (same, still) = other-dispatch msg c v (inl e) in
        rw e
          (awaited msgs (dispatch msg c) (receive-IsOrderly msg c v) (still ∙ w) (same ∙ none_yet))
  ]

-- `send_sync` returns the first of the messages that arrive in time with its request's id, whatever else
-- arrives, and fails its assertion exactly if there is none.
pub send_sync-find? :
    (body : Text) (arrived : List QmpMessage) (c : QmpClient)
    → Reach c
    → (send_sync body arrived c).0 ≡ or_assert (find? (has_id c.current_id) arrived)
unfolding send_sync
send_sync-find? body arrived c r =
    let v = Reach-IsOrderly r in
    let n = c.current_id in
    ap or_assert (
      awaited n arrived (send_async body sync c) (request-IsOrderly body c v) (registered body c v)
        (untouched body c v))
  where
    registered :
        (body : Text) (c : QmpClient)
        → IsOrderly c
        → (send_async body sync c).id_callbacks c.current_id ≡ sync c.current_id ∷ []
    registered body c v = rw (==_refl c.current_id, (v.unused c.current_id (omega arith)).0)

    untouched :
        (body : Text) (c : QmpClient)
        → IsOrderly c
        → response_from c.current_id none (send_async body sync c).called ≡ none
    untouched body c v =
        response_from-none c.current_id c.called (v.unused c.current_id (omega arith)).1
