-- ===== src/Container/Start/Run/Leaks.antt =====
-- `run` of internal/container/lifecycle.go: what is left of a container in the networks.
use zylo.Text.{Text}
use zylo.Container.{Container}
