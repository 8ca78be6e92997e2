-- ===== src/Kmod/Processes/Examples.antt =====
-- The table of processes on a concrete history.
use agnocast.Prelude.{true, some, List, [], ◌∷◌}
use agnocast.Kmod.State.{application, unlink_daemon}
use agnocast.Kmod.Memory.{init_entries}
use agnocast.Kmod.Processes.{Table}
use agnocast.Kmod.Processes.Runs.{IsSafe, TableOp, add, exit, commit, table_run, table_run-IsSafe}

abbrev start : Table
start = record { processes = []; pools = init_entries 4 4096 16 }

-- An application, a daemon and a second one, which is turned away; the application exits and is collected.
abbrev history : List TableOp
history =
    add true true 11 1 application 0
    ∷ add true true 12 1 unlink_daemon 0
    ∷ add true true 13 1 unlink_daemon 0
    ∷ exit 11
    ∷ commit 1 (some 11) 12
    ∷ []

table_run-IsSafe_example : IsSafe (table_run history start)
table_run-IsSafe_example = table_run-IsSafe history 4 4096 16
