-- ===== src/Service/Terminal.antt =====
-- daemon/internal/service/terminal.go: what it does with the row of a terminal alone.
use shell_sync.Base.{ℕ, String}
use shell_sync.Store.{Result}
use shell_sync.Store.Terminals
use shell_sync.Store.Terminals.{TerminalPatch}
use shell_sync.Service.{State, Reply, committed, terminal_event}

pub get : State → String → Result shell_sync.Store.Terminal
get s id = Terminals.get s.db id

unfoldable pub update : State → String → TerminalPatch → ℕ → State × Reply shell_sync.Store.Terminal
update s id p now = committed (terminal_event "updated") s (Terminals.update s.db id p now)
