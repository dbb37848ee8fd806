-- ===== src/Config/Laws.antt =====
-- pkg/config/config.go: what dev mode makes of a configuration.
use knative_benchmark.Config.{Config}
