-- ===== src/Rpc/Ports.antt =====
-- internal/rpc/ports.go: the port of the hub's two services.
use gossipcache.Common.{ℕ}

abbrev pub default_rpc_port : ℕ
default_rpc_port = 7400
