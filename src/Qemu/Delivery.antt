-- ===== src/Qemu/Delivery.antt =====
-- transient/qemu.py: which callbacks are called, whatever messages arrive.
use transient.Base.{
  ==_iff, All, All-append, Bool-cases, List, Text, [], ap, arith, if◌then◌else◌, inl, inr, map,
  refl, some, suc, sym, text_eq, ℕ, ◌++◌, ◌+◌, ◌==◌, ◌∙◌, ◌∷◌, ◌≡◌, ◌≢◌, ◌≤◌, Option, none,
}
use transient.Qemu.Client.{
  start, receive, subscribe, request, next, Reach, new_client, dispatch, dispatch_by, call_all,
  send_msg, by_event, allocate_id, register_callback, send_async, QmpMessage, QmpCallback, sync,
  observer, QmpClient, is_sync,
}

-- The calls of the closure for request `n`.
abbrev pub calls_of : ℕ → List (QmpCallback × QmpMessage) → ℕ
calls_of n [] = 0
calls_of n ((f, msg) ∷ calls) = if is_sync n f then suc (calls_of n calls) else calls_of n calls

abbrev pub waiting_of : ℕ → List QmpCallback → ℕ
waiting_of n [] = 0
waiting_of n (f ∷ fs) = if is_sync n f then suc (waiting_of n fs) else waiting_of n fs

-- A call is of an observer, or of the closure whose request's id the message has.
abbrev pub IsAnswer : QmpCallback × QmpMessage → Type 0
IsAnswer (sync n, msg) = msg.id ≡ some n
IsAnswer (observer k, msg) = Unit

abbrev pub IsOwn : ℕ → QmpCallback → Type 0
IsOwn n (sync k) = k ≡ n
IsOwn n (observer k) = ⊥

abbrev pub IsObserver : QmpCallback → Type 0
IsObserver (sync k) = ⊥
IsObserver (observer k) = Unit

-- What every reachable client keeps.
pub record IsOrderly (c : QmpClient) : Type 0 where
  pub once : (n : ℕ) → calls_of n c.called + waiting_of n (c.id_callbacks n) ≤ 1
  pub unused : (n : ℕ) → c.current_id ≤ n → (c.id_callbacks n ≡ []) × (calls_of n c.called ≡ 0)
  pub own : (n : ℕ) → All (IsOwn n) (c.id_callbacks n)
  pub observers : (e : Text) → All IsObserver (c.event_callbacks e)
  pub answers : All IsAnswer c.called

calls_of-append :
    (n : ℕ) (a b : List (QmpCallback × QmpMessage))
    → calls_of n (a ++ b) ≡ calls_of n a + calls_of n b
calls_of-append n [] b = omega arith
calls_of-append n ((f, msg) ∷ a) b = ground (arith, calls_of-append n a b)

waiting_of-append :
    (n : ℕ) (a b : List QmpCallback) → waiting_of n (a ++ b) ≡ waiting_of n a + waiting_of n b
waiting_of-append n [] b = omega arith
waiting_of-append n (f ∷ a) b = ground (arith, waiting_of-append n a b)

calls_of-map :
    (n : ℕ) (msg : QmpMessage) (fs : List QmpCallback)
    → calls_of n (map (λ f. (f, msg)) fs) ≡ waiting_of n fs
calls_of-map n msg [] = refl
calls_of-map n msg (f ∷ fs) = ground (arith, calls_of-map n msg fs)

pub waiting_of_observers : (n : ℕ) (fs : List QmpCallback) → All IsObserver fs → waiting_of n fs ≡ 0
waiting_of_observers n [] h = refl
waiting_of_observers n (sync k ∷ fs) (h, hs) = absurd h
waiting_of_observers n (observer k ∷ fs) (h, hs) = waiting_of_observers n fs hs

pub waiting_of_others :
    (n k : ℕ) (fs : List QmpCallback) → n ≢ k → All (IsOwn k) fs → waiting_of n fs ≡ 0
waiting_of_others n k [] d h = refl
waiting_of_others n k (sync j ∷ fs) d (h, hs) = ground (arith, waiting_of_others n k fs d hs)
waiting_of_others n k (observer j ∷ fs) d (h, hs) = absurd h

IsAnswer-own :
    (n : ℕ) (msg : QmpMessage) (fs : List QmpCallback)
    → msg.id ≡ some n
    → All (IsOwn n) fs
    → All IsAnswer (map (λ f. (f, msg)) fs)
IsAnswer-own n msg [] e h = tt
IsAnswer-own n msg (sync k ∷ fs) e (h, hs) = (e ∙ ap some (sym h), IsAnswer-own n msg fs e hs)
IsAnswer-own n msg (observer k ∷ fs) e (h, hs) = absurd h

IsAnswer-observers :
    (msg : QmpMessage) (fs : List QmpCallback)
    → All IsObserver fs
    → All IsAnswer (map (λ f. (f, msg)) fs)
IsAnswer-observers msg [] h = tt
IsAnswer-observers msg (sync k ∷ fs) (h, hs) = absurd h
IsAnswer-observers msg (observer k ∷ fs) (h, hs) = (tt, IsAnswer-observers msg fs hs)

pub request-IsOrderly :
    (body : Text) (c : QmpClient) → IsOrderly c → IsOrderly (send_async body sync c)
unfolding send_async allocate_id register_callback send_msg
request-IsOrderly body c v = record {
  once = λ n. elim (Bool-cases (n == c.current_id)) [
    | inl e ↦ ground (arith, e, v.unused c.current_id, waiting_of-append n)
    | inr e ↦ ground (arith, e, v.once n)
  ];
  unused = λ n h. ground (arith, v.unused n);
  own = λ n. elim (Bool-cases (n == c.current_id)) [
    | inl e ↦
        rw (e, (v.unused c.current_id (omega arith)).0) (sym ((==_iff n c.current_id).0 e), tt)
    | inr e ↦ rw e (v.own n)
  ];
  observers = v.observers;
  answers = v.answers;
}

subscribe-IsOrderly :
    (e : Text) (k : ℕ) (c : QmpClient)
    → IsOrderly c
    → IsOrderly (register_callback (by_event e) (observer k) c)
unfolding register_callback
subscribe-IsOrderly e k c v = record {
  once = v.once;
  unused = v.unused;
  own = v.own;
  observers = λ e'. elim (Bool-cases (text_eq e' e)) [
    | inl same ↦
        rw same
          (All-append IsObserver (c.event_callbacks e) (observer k ∷ []) (v.observers e) (tt, tt))
    | inr other ↦ rw other (v.observers e')
  ];
  answers = v.answers;
}

answered-IsOrderly :
    (k : ℕ) (event : Option Text) (msg : QmpMessage) (c : QmpClient)
    → msg.id ≡ some k
    → IsOrderly c
    → IsOrderly (dispatch_by (some k) event msg c)
unfolding call_all
answered-IsOrderly k event msg c i v =
    let fs = c.id_callbacks k in
    let grown = λ (n : ℕ).
      calls_of-append n c.called (map (λ f. (f, msg)) fs)
      ∙ ap (λ m. calls_of n c.called + m) (calls_of-map n msg fs) in
    record {
      once = λ n. elim (Bool-cases (n == k)) [
        | inl e ↦ rw (e, grown n) (ground (arith, (==_iff n k).0 e, v.once k))
        | inr e ↦
            rw (e, grown n, waiting_of_others n k fs (λ q. cc ((==_iff n k).1 q, e)) (v.own k))
              (ground (arith, v.once n))
      ];
      unused = λ n h. elim (Bool-cases (n == k)) [
        | inl e ↦
            rw (e, grown n, (v.unused k (omega (arith, (==_iff n k).0 e, h))).0)
              (refl, omega (arith, v.unused n h))
        | inr e ↦
            rw (e, grown n, waiting_of_others n k fs (λ q. cc ((==_iff n k).1 q, e)) (v.own k))
              ((v.unused n h).0, omega (arith, v.unused n h))
      ];
      own = λ n. elim (Bool-cases (n == k)) [ inl e ↦ rw e tt | inr e ↦ rw e (v.own n) ];
      observers = v.observers;
      answers =
          All-append IsAnswer c.called (map (λ f. (f, msg)) fs) v.answers
            (IsAnswer-own k msg fs i (v.own k));
    }

noticed-IsOrderly :
    (event : Text) (msg : QmpMessage) (c : QmpClient)
    → IsOrderly c
    → IsOrderly (dispatch_by none (some event) msg c)
unfolding call_all
noticed-IsOrderly event msg c v =
    let fs = c.event_callbacks event in
    let grown = λ (n : ℕ).
      calls_of-append n c.called (map (λ f. (f, msg)) fs)
      ∙ ap (λ m. calls_of n c.called + m)
          (calls_of-map n msg fs ∙ waiting_of_observers n fs (v.observers event)) in
    record {
      once = λ n. rw (grown n) (ground (arith, v.once n));
      unused = λ n h. rw (grown n) (ground (arith, v.unused n h));
      own = v.own;
      observers = v.observers;
      answers =
          All-append IsAnswer c.called (map (λ f. (f, msg)) fs) v.answers
            (IsAnswer-observers msg fs (v.observers event));
    }

pub receive-IsOrderly :
    (msg : QmpMessage) (c : QmpClient) → IsOrderly c → IsOrderly (dispatch msg c)
unfolding dispatch
receive-IsOrderly msg c v = go msg.id refl msg.event
  where
    go : (i : Option ℕ) → msg.id ≡ i → (e : Option Text) → IsOrderly (dispatch_by i e msg c)
    go (some k) same e = answered-IsOrderly k e msg c same v
    go none same (some e) = noticed-IsOrderly e msg c v
    go none same none = v

new_client-IsOrderly : IsOrderly new_client
new_client-IsOrderly = record {
  once = λ n. omega arith;
  unused = λ n h. (refl, refl);
  own = λ n. tt;
  observers = λ e. tt;
  answers = tt;
}

-- Whatever messages arrive, and whenever requests are made between them: the closure of a request is
-- called at most once, and not again once it has been; it is called only with a message that has the
-- request's id; and no closure waits for, or was called with, an id that has not been allocated.
pub Reach-IsOrderly : {c : QmpClient} → Reach c → IsOrderly c
Reach-IsOrderly start = new_client-IsOrderly
Reach-IsOrderly (next {c} r (request body)) = request-IsOrderly body c (Reach-IsOrderly r)
Reach-IsOrderly (next {c} r (subscribe e k)) = subscribe-IsOrderly e k c (Reach-IsOrderly r)
Reach-IsOrderly (next {c} r (receive msg)) = receive-IsOrderly msg c (Reach-IsOrderly r)
