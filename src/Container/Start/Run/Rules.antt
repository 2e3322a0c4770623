-- ===== src/Container/Start/Run/Rules.antt =====
-- `run` of internal/container/lifecycle.go: the rules that forward the ports of a container.
use zylo.Text.{Text}
use zylo.Container.{Container}
use zylo.Network
use zylo.Container.Start.{Running, setup_network}
use zylo.Container.Start.Run.{RunFate, mark_used}

-- The state when the network of a container is set up.
abbrev pub networked : RunFate → Running → Running
networked w s = (setup_network w.start s.container (mark_used w s.container s)).1
