-- ===== src/Errors/Tests.antt =====
-- transient/utils.py: programs that fail, and what is said of them.
use transient.Base.{
  signalled, exited, ◌≡◌, refl, true, false, none, some, [], ◌∷◌, ◌++◌, lit, join, process_error,
  err,
}
use transient.Base.Decimal.{show_nat}
use transient.Errors.{
  process_error_text, Ran, called_process_error, not_installed, Call, run_check_retcode,
}

abbrev listing : Call
listing = record {
  cmd = lit "ls" ∷ lit "-l" ∷ [];
  capture_stdout = true;
  capture_stderr = false;
  timeout = none;
}

error_text :
    process_error_text (record {
      cmd = some (lit "ls");
      returncode = some (exited 2);
      msg = none;
      stdout = some (lit "x");
      stderr = none;
    })
    ≡ lit "ls exited with return code 2" ++ (10 ∷ lit "----STDOUT----" ++ (10 ∷ lit "x"))
unfolding process_error_text show_nat lit
error_text = refl

killed_text :
    process_error_text (record {
      cmd = none;
      returncode = some (signalled 9);
      msg = none;
      stdout = none;
      stderr = none;
    })
    ≡ lit " exited with return code -9"
unfolding process_error_text show_nat lit
killed_text = refl

abbrev failing : Call → Ran
failing call = called_process_error (exited 2) (some (lit "x")) none

failed_listing :
    run_check_retcode failing (λ t. t) listing
    ≡ err (
        process_error (record {
          cmd = some (lit "ls -l");
          returncode = some (exited 2);
          msg = none;
          stdout = some (lit "x");
          stderr = none;
        }))
unfolding run_check_retcode join lit
failed_listing = refl

no_program :
    run_check_retcode (λ call. not_installed) (λ t. t) listing
    ≡ err (
        process_error (record {
          cmd = none;
          returncode = none;
          msg = some (lit "Required program ls is not installed");
          stdout = none;
          stderr = none;
        }))
unfolding run_check_retcode lit
no_program = refl
