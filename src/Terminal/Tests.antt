-- ===== src/Terminal/Tests.antt =====
-- Runs of a daemon with one terminal.
use shell_sync.Base.{string_key, nat_key, ◌≡◌, refl, true, false, none, some, List, [], ◌∷◌, arith}
use shell_sync.Base.Order.{pos}
use shell_sync.Base.Dict.{lookup, insert}
use shell_sync.Log.{stdout}
use shell_sync.Log.Strokes.{read, read-write, backend}
use shell_sync.Log.Flushing.{persisted}
use shell_sync.Log.Conserve.{Settled}
use shell_sync.Store.{Database, Terminal, empty_db}
use shell_sync.Store.Terminals.{TerminalCreate}
use shell_sync.Terminal.{Session, Manager, log_of, new_session, empty_log}
use shell_sync.Terminal.Sessions.{finalize}
use shell_sync.Terminal.Managing.{Host, recover, restart_check, restart_finish}
use shell_sync.Terminal.Sound.{Ok}
use shell_sync.Terminal.Sound.Always.{
  Step, creates, listens, resizes, exits, restarts, stops, run, run-Sound, deletes,
}
use shell_sync.Terminal.Hearing.{Attached, heard_of}
use shell_sync.Terminal.Hearing.Inputs.{
  Input, reads, writes, ticks, resizes_to, joins, parts, Stays, act_all, output_of,
}
use shell_sync.Terminal.Hearing.Bytes.{handler_hears_all}
use shell_sync.Terminal.Race.{twice, restarts_orphan}

abbrev one_user : Database
one_user = record empty_db { users = ("u", "Local") ∷ [] }

abbrev host : Host
host = record {
  windows = false;
  default_name = λ shell now. shell;
  spawns = λ shell cwd cols rows env. true;
  reads_env = λ env. true;
}

abbrev opts : TerminalCreate
opts = record {
  task_id = "";
  name = "";
  shell_type = "";
  cwd = "";
  cols = pos 80;
  rows = pos 24;
  env = "";
  status = "";
}

abbrev day : List Step
day =
    creates "m1" "u" opts 2
    ∷ listens 0
    ∷ resizes 0 (pos 100) (pos 30) true
    ∷ exits 0 (some (pos 0)) 5
    ∷ restarts "m1" none 6
    ∷ stops "m1" none 7
    ∷ creates "m2" "u" opts 8
    ∷ deletes "m1" none 9
    ∷ []

run-Sound_example : Ok (run host backend 4 (recover one_user [] 1) day)
run-Sound_example = run-Sound host backend 4 one_user [] 1 day

-- A daemon with one live terminal, whose session has one output handler.
abbrev listening : Session
listening = record (new_session "m1" (pos 80) (pos 24)) { next_sub = 1; output_subs = 0 ∷ [] }

abbrev row : Terminal
row = record (shell_sync.Store.Terminals.new_terminal "m1" "u" opts 2) {
  shell_type = "bash";
  status = "running";
}

abbrev live : Manager
live = record {
  db = record one_user { terminals = ("m1", row) ∷ [] };
  logs = ("m1", record empty_log { registered = true; pending = some (80, 24) }) ∷ [];
  heap = (0, listening) ∷ [];
  next_handle = 1;
  sessions = ("m1", 0) ∷ [];
  calls = [];
}

-- It is what the manager makes of the calls.
live_is_made :
    (run host backend 4 (recover one_user [] 1) (creates "m1" "u" opts 2 ∷ listens 0 ∷ [])).heap
    ≡ live.heap
unfolding run shell_sync.Terminal.Sound.Always.step recover shell_sync.Terminal.Managing.create
    shell_sync.Store.Terminals.create shell_sync.Store.Terminals.mark_running_as_crashed
    shell_sync.Terminal.Managing.start_session shell_sync.Terminal.log_to
    shell_sync.Terminal.dispatch shell_sync.Terminal.Sessions.subscribe_output
    shell_sync.Terminal.set_session lookup insert shell_sync.Store.update_where
live_is_made = refl

attached : Attached "m1" 0 0 live
unfolding lookup
attached = record {
  session = listening;
  named = refl;
  object = refl;
  same_id = refl;
  once = refl;
  known = omega arith;
}

settled : Settled (log_of live "m1")
unfolding log_of lookup
settled = λ e. cc

abbrev work : List Input
work =
    reads (1 ∷ 2 ∷ 3 ∷ 4 ∷ 5 ∷ [])
    ∷ joins
    ∷ writes (9 ∷ [])
    ∷ resizes_to (pos 100) (pos 30) true
    ∷ reads (6 ∷ [])
    ∷ ticks stdout
    ∷ parts 1
    ∷ reads (7 ∷ [])
    ∷ []

stays : Stays 0 work
unfolding Stays
stays = ((λ e. cc), tt)

handler_hears_all_example :
    persisted read stdout (
      heard_of 0 0 (finalize backend (act_all backend 4 "m1" 0 live work) 0 (some (pos 0)) 9).calls)
    ≡ 1 ∷ 2 ∷ 3 ∷ 4 ∷ 5 ∷ 6 ∷ 7 ∷ []
unfolding persisted heard_of log_of lookup output_of attached
handler_hears_all_example =
    handler_hears_all backend read read-write (λ seq. refl) 4 "m1" 0 0 live work (some (pos 0)) 9
      attached refl settled stays

-- A terminal that has exited, and two restarts of it.
abbrev ended : Manager
ended = record live {
  db = record one_user { terminals = ("m1", record row { status = "exited" }) ∷ [] };
  heap = [];
  sessions = [];
}

passed : restart_check host ended "m1" ≡ some (record row { status = "exited" })
unfolding restart_check lookup
passed = refl

restarts_orphan_example :
    (lookup "m1"
        (finalize backend
          (twice host ended "m1" (record row { status = "exited" }) 6 7)
          1
          none
          8).sessions
      ≡ none)
    × ((s : Session) × (lookup 2
            (finalize backend
              (twice host ended "m1" (record row { status = "exited" }) 6 7)
              1
              none
              8).heap
          ≡ some s)
        × (s.id ≡ "m1")
        × (s.exited ≡ false))
restarts_orphan_example =
    restarts_orphan host backend ended "m1" (record row { status = "exited" }) none 6 7 8 passed
