-- ===== src/Errors.antt =====
-- transient/utils.py: `run_check_retcode` and the exceptions that it raises. The programs are run by
-- `subprocess.run`, which is a parameter.
pub mod Tests
use transient.Base.{
  signalled, exited, ReturnCode, ℕ, Bool, Option, none, some, List, [], ◌∷◌, ◌++◌, Text, lit, join,
  ProcessError, Exn, transient_error, process_error, lock_held, index_error, Result, ok, err,
}
use transient.Base.Decimal.{show_nat}

abbrev shown : Text → Option Text → Text → Text
shown before none behind = []
shown before (some text) behind = before ++ (text ++ behind)

abbrev show_code : ReturnCode → Text
show_code (exited n) = show_nat n
show_code (signalled n) = lit "-" ++ show_nat n

-- `TransientProcessError.__str__`
unfoldable pub process_error_text : ProcessError → Text
unfolding show_nat
process_error_text e =
    shown [] e.msg (elim e.cmd [ none ↦ [] | some cmd ↦ lit ": " ])
    ++ (shown [] e.cmd []
        ++ (elim e.returncode [
          | none ↦ []
          | some code ↦ lit " exited with return code " ++ show_code code
        ]
            ++ (shown (lit "\n----STDOUT----\n") e.stdout []
                ++ shown (lit "\n----STDERR----\n") e.stderr [])))

-- `TransientError.exit` and `TransientProcessError.exit`: what `sys.exit` is given
abbrev pub exit : Exn → Option ReturnCode
exit (transient_error msg) = some (exited 1)
exit (lock_held name) = some (exited 1)
exit (process_error e) = some (elim e.returncode [ none ↦ exited 1 | some code ↦ code ])
exit e = none

-- How `subprocess.run` ends with `check=True`; a stream that is not captured is none.
pub data Ran : Type 0 where
  succeeded : Option Text → Option Text → Ran
  called_process_error : ReturnCode → Option Text → Option Text → Ran
  ran_too_long : Option Text → Option Text → Ran
  not_installed : Ran
  refused : Text → Ran
  not_decoded : Ran

-- The arguments that differ from call to call: whether the streams are captured, and the timeout.
pub record Call : Type 0 where
  pub cmd : List Text
  pub capture_stdout : Bool
  pub capture_stderr : Bool
  pub timeout : Option ℕ

abbrev pub failure :
    Option (List Text) → Option ReturnCode → Option Text → Option Text → Option Text → Exn
failure cmd returncode msg stdout stderr = process_error (record {
  cmd = elim cmd [ none ↦ none | some words ↦ some (join (lit " ") words) ];
  returncode = returncode;
  msg = msg;
  stdout = stdout;
  stderr = stderr;
})

-- `prog = repr(cmd[0])`, and the message of it
abbrev pub with_prog : (Text → Text) → List Text → (Text → Text) → Exn
with_prog repr [] msg = index_error
with_prog repr (prog ∷ cmd) msg = failure none none (some (msg (repr prog))) none none

-- `run_check_retcode`
unfoldable pub run_check_retcode :
    (Call → Ran) → (Text → Text) → Call → Result (Option Text × Option Text)
unfolding lit join
run_check_retcode run repr call = elim (run call) [
  | succeeded stdout stderr ↦ ok (stdout, stderr)
  | called_process_error code stdout stderr ↦
      err (failure (some call.cmd) (some code) none stdout stderr)
  | ran_too_long stdout stderr ↦ err (failure (some call.cmd) none none stdout stderr)
  | not_installed ↦ err (
      with_prog repr call.cmd
        (λ prog. lit "Required program " ++ (prog ++ lit " is not installed")))
  | refused error ↦ err (
      with_prog repr call.cmd
        (λ prog. lit "Could not run required program " ++ (prog ++ (lit ": " ++ error))))
  | not_decoded ↦
      err (failure (some call.cmd) none (some (lit "Command produced garbage")) none none)
]
