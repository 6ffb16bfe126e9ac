-- ===== src/Qemu/Tests.antt =====
-- transient/qemu.py on concrete messages and processes, and the theorems at them.
use transient.Base.{
  List, Option, Result, ReturnCode, Text, [], err, false, file_not_found, find?, if◌then◌else◌, lit,
  ltb, none, ok, os_error, refl, signalled, some, text_eq, timeout_expired, true, ℕ, ◌∷◌, ◌≡◌, ◌++◌,
  All, has_char, runtime_error, value_error,
}
use transient.Base.Io.{raise, World, pure, perform, ◌>>=◌}
use transient.Qemu.Framing.{frames, lines_of, listen, closed, raised, IsReadable, listen-Ends}
use transient.Qemu.Connection.{
  takes, Connecting, returns, Monitor, connect, Attempts, Ends, connect-Ends,
}
use transient.Qemu.Client.{
  QmpMessage, sync, observer, by_event, QmpClient, new_client, register_callback, send_async,
  dispatch, dispatch_all, send_sync, or_assert, Reach, start, next, request, subscribe, receive,
}
use transient.Qemu.Delivery.{IsOrderly, Reach-IsOrderly}
use transient.Qemu.Replies.{has_id, send_sync-find?}
use transient.Qemu.Runner.{
  RunAction, send_terminate, wait_process, QemuRunner, qemu_runner, wait, terminate, kill, act,
  wait_or_kill, make_command_line, redirections, devnull,
}
use transient.Qemu.Guards.{Reaped, terminate-Reaped}

abbrev reply : ℕ → Text → QmpMessage
reply n body = record { id = some n; event = none; body = body }

abbrev shutdown_event : QmpMessage
shutdown_event = record { id = none; event = some (lit "SHUTDOWN"); body = [] }

-- The capabilities were requested and answered, and the shutdown is observed.
abbrev client : QmpClient
client =
    register_callback (by_event (lit "SHUTDOWN")) (observer 7)
      (dispatch (reply 0 (lit "ok")) (send_async (lit "qmp_capabilities") sync new_client))

abbrev client-Reach : Reach client
client-Reach =
    next (next (next start (request (lit "qmp_capabilities"))) (receive (reply 0 (lit "ok"))))
      (subscribe (lit "SHUTDOWN") 7)

Reach-IsOrderly_example : IsOrderly client
Reach-IsOrderly_example = Reach-IsOrderly client-Reach

abbrev incoming : List QmpMessage
incoming = shutdown_event ∷ reply 0 (lit "again") ∷ reply 1 (lit "yes") ∷ reply 1 (lit "twice") ∷ []

send_sync-find?_example :
    (send_sync (lit "system_powerdown") incoming client).0
    ≡ or_assert (find? (has_id client.current_id) incoming)
send_sync-find?_example = send_sync-find? (lit "system_powerdown") incoming client client-Reach

powered_down : (send_sync (lit "system_powerdown") incoming client).0 ≡ ok (reply 1 (lit "yes"))
unfolding send_sync send_async dispatch dispatch_all register_callback lit text_eq
powered_down = refl

abbrev idle : QemuRunner
idle = qemu_runner (lit "-m" ∷ lit "1G" ∷ []) none true false true (some (lit "/tmp/s")) []

command_line :
    make_command_line idle
    ≡ lit "qemu-system-x86_64"
      ∷ lit "-m"
      ∷ lit "1G"
      ∷ lit "-qmp"
      ∷ lit "unix:/tmp/s,server,nowait"
      ∷ []
unfolding make_command_line qemu_runner lit
command_line = refl

quiet : redirections idle ≡ (devnull, devnull)
unfolding redirections qemu_runner
quiet = refl

-- The process ends only when it is killed.
abbrev stubborn : World RunAction (Option ReturnCode)
stubborn h (wait_process (some n)) = err timeout_expired
stubborn h (wait_process none) = ok (some (signalled 9))
stubborn h a = ok none

not_started :
    wait stubborn none idle []
    ≡ (err (runtime_error (lit "QemuRunner cannot wait without being started")), [])
unfolding wait qemu_runner raise lit
not_started = refl

abbrev running : QemuRunner
running = record idle { started = true }

killed : (terminate stubborn (some 3) running []).0 ≡ ok tt
unfolding terminate act wait_or_kill kill ◌>>=◌ perform pure
killed = refl

terminate-Reaped_example :
    Reaped stubborn 3 (send_terminate ∷ []) (terminate stubborn (some 3) running []).1
terminate-Reaped_example = terminate-Reaped stubborn running refl 3 [] killed

-- The socket is there after seven tenths of a second.
abbrev monitor : Monitor
monitor t = if ltb t 7 then takes 0 (err file_not_found) else takes 1 (ok tt)

connected : connect 101 monitor 100 0 ≡ some (returns (ok 9))
unfolding connect
connected = refl

not_connected : connect 6 monitor 5 0 ≡ some (returns (err os_error))
unfolding connect
not_connected = refl

connect-Ends_example :
    (result : Connecting) × (t : ℕ) × (connect 101 monitor 100 0 ≡ some result)
    × Attempts monitor 100 t
    × Ends monitor 100 t result
connect-Ends_example = connect-Ends monitor 100

-- JSON that knows two messages
abbrev dumps : QmpMessage → Text
dumps msg = msg.body

abbrev replies : List QmpMessage
replies = reply 0 (lit "yes") ∷ shutdown_event ∷ []

abbrev loads : Text → Result QmpMessage
loads line =
    if text_eq line (lit "yes" ++ (13 ∷ 10 ∷ []))
    then ok (reply 0 (lit "yes"))
    else if text_eq line (13 ∷ 10 ∷ [])
    then ok shutdown_event
    else err value_error

replies-IsReadable : All (IsReadable dumps loads) replies
unfolding has_char text_eq lit
replies-IsReadable = ((refl, refl), ((refl, refl), tt))

bad_json : loads (lit "no" ++ (10 ∷ [])) ≡ err value_error
unfolding text_eq lit
bad_json = refl

no_break : has_char 10 (lit "no") ≡ false
unfolding has_char lit
no_break = refl

listen-Ends_example :
    (listen loads (lines_of (frames dumps replies)) client ≡ (closed, dispatch_all replies client))
    × (listen loads (lines_of (frames dumps replies ++ (lit "no" ++ (10 ∷ 7 ∷ [])))) client
        ≡ (raised value_error, dispatch_all replies client))
listen-Ends_example =
    listen-Ends dumps loads replies (lit "no") (7 ∷ []) value_error client replies-IsReadable
      no_break bad_json
