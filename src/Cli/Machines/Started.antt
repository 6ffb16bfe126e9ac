-- ===== src/Cli/Machines/Started.antt =====
-- transient/cli.py: `start` of a machine that `create` has made.
use transient.Base.Dict.{Dict}
use transient.Store.State.{Store}
