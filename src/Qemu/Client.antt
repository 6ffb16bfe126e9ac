-- ===== src/Qemu/Client.antt =====
-- transient/qemu.py: `QmpClient`, between the socket and its callbacks. The thread that listens and the
-- one that sends take turns; the messages that arrive are the environment's.
use transient.Base.{
  ℕ, ◌+◌, Bool, false, Option, none, some, List, [], ◌∷◌, ◌++◌, map, ◌==◌, if◌then◌else◌, Text,
  text_eq, assertion_error, Result, ok, err,
}

-- The fields of a message by which it is dispatched, and the rest of it. A request that is not sent yet
-- has no id.
pub record QmpMessage : Type 0 where
  pub id : Option ℕ
  pub event : Option Text
  pub body : Text

-- A callback: `_sync_callback`, which is a new closure for each call of `send_sync` and is named by the
-- id of its request, or a function that is called on an event.
pub data QmpCallback : Type 0 where
  sync : ℕ → QmpCallback
  observer : ℕ → QmpCallback

-- `id_or_event`
pub data IdOrEvent : Type 0 where
  by_id : ℕ → IdOrEvent
  by_event : Text → IdOrEvent

-- A `QmpClient`: the two `defaultdict(list)` as functions, the next id, what was written to the socket,
-- and the calls of callbacks, in order.
pub record QmpClient : Type 0 where
  pub id_callbacks : ℕ → List QmpCallback
  pub event_callbacks : Text → List QmpCallback
  pub current_id : ℕ
  pub sent : List QmpMessage
  pub called : List (QmpCallback × QmpMessage)

-- `QmpClient.__init__`
abbrev pub new_client : QmpClient
new_client = record {
  id_callbacks = λ _. [];
  event_callbacks = λ _. [];
  current_id = 0;
  sent = [];
  called = [];
}

-- `d[k]` of a dictionary after `d[k] = v`
abbrev pub at_id : ℕ → List QmpCallback → (ℕ → List QmpCallback) → ℕ → List QmpCallback
at_id k v d n = if n == k then v else d n

abbrev pub at_event : Text → List QmpCallback → (Text → List QmpCallback) → Text → List QmpCallback
at_event k v d e = if text_eq e k then v else d e

-- `__allocate_id`
unfoldable pub allocate_id : QmpClient → ℕ × QmpClient
allocate_id c = (c.current_id, record c { current_id = c.current_id + 1 })

-- `register_callback`
unfoldable pub register_callback : IdOrEvent → QmpCallback → QmpClient → QmpClient
register_callback (by_id n) callback c = record c {
  id_callbacks = at_id n (c.id_callbacks n ++ (callback ∷ [])) c.id_callbacks;
}
register_callback (by_event e) callback c = record c {
  event_callbacks = at_event e (c.event_callbacks e ++ (callback ∷ [])) c.event_callbacks;
}

-- `__send_msg`
unfoldable pub send_msg : QmpMessage → QmpClient → QmpClient
send_msg msg c = record c { sent = c.sent ++ (msg ∷ []) }

-- `send_async`, with the callback that is made for the id
unfoldable pub send_async : Text → (ℕ → QmpCallback) → QmpClient → QmpClient
unfolding allocate_id register_callback send_msg
send_async body callback c =
    let (id, c') = allocate_id c in
    send_msg (record { id = some id; event = none; body = body })
      (register_callback (by_id id) (callback id) c')

-- `for callback in callbacks: callback(msg)`
unfoldable pub call_all : List QmpCallback → QmpMessage → QmpClient → QmpClient
call_all callbacks msg c = record c { called = c.called ++ map (λ f. (f, msg)) callbacks }

abbrev pub dispatch_by : Option ℕ → Option Text → QmpMessage → QmpClient → QmpClient
dispatch_by (some n) event msg c =
    let c' = call_all (c.id_callbacks n) msg c in
    record c' { id_callbacks = at_id n [] c'.id_callbacks }
dispatch_by none (some e) msg c = call_all (c.event_callbacks e) msg c
dispatch_by none none msg c = c

-- The body of the loop of `__start`, on one message.
unfoldable pub dispatch : QmpMessage → QmpClient → QmpClient
unfolding call_all
dispatch msg c = dispatch_by msg.id msg.event msg c

unfoldable pub dispatch_all : List QmpMessage → QmpClient → QmpClient
dispatch_all [] c = c
dispatch_all (msg ∷ msgs) c = dispatch_all msgs (dispatch msg c)

-- Whether a call is one of the closure for request `n`.
abbrev pub is_sync : ℕ → QmpCallback → Bool
is_sync n (sync k) = k == n
is_sync n (observer k) = false

-- `response`, after the calls: each call of the closure overwrites it.
abbrev pub response_from :
    ℕ → Option QmpMessage → List (QmpCallback × QmpMessage) → Option QmpMessage
response_from n seen [] = seen
response_from n seen ((f, msg) ∷ calls) =
    response_from n (if is_sync n f then some msg else seen) calls

abbrev pub or_assert : Option QmpMessage → Result QmpMessage
or_assert none = err assertion_error
or_assert (some msg) = ok msg

-- `send_sync`, where `arrived` are the messages that the listening thread dispatches before the
-- semaphore is released or the timeout passes.
unfoldable pub send_sync : Text → List QmpMessage → QmpClient → Result QmpMessage × QmpClient
unfolding send_async dispatch_all
send_sync body arrived c =
    let c' = dispatch_all arrived (send_async body sync c) in
    (or_assert (response_from c.current_id none c'.called), c')

-- The moves of the two threads. Nothing else registers a callback for an id.
pub data Step (c : QmpClient) : QmpClient → Type 0 where
  request : (body : Text) → Step c (send_async body sync c)
  subscribe : (e : Text) (k : ℕ) → Step c (register_callback (by_event e) (observer k) c)
  receive : (msg : QmpMessage) → Step c (dispatch msg c)

pub data Reach : QmpClient → Type 0 where
  start : Reach new_client
  next : {c d : QmpClient} → Reach c → Step c d → Reach d
