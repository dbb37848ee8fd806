-- ===== src/Config/Tests.antt =====
-- A configuration loaded with and without dev mode.
use knative_benchmark.Prelude.{[], ◌∷◌, Result, ok, Text, codes, ℕ, pos}
use knative_benchmark.Config.{Config}

abbrev cfg : Config ℕ
cfg = record {
  targets =
      record {
        url = codes "http://a.functions";
        headers = (codes "X", codes "1") ∷ [];
        weight = pos 1;
        host_header = [];
        body = [];
      }
      ∷ [];
  rate = record {
    requests_per_second = 5;
    duration = pos 10;
    max_idle_conns = pos 1;
    max_idle_conns_per_host = pos 1;
    idle_conn_timeout = pos 30;
    timeout = pos 30;
  };
  base_url = codes "http://b";
  log_dir_path = codes "/logs";
}

abbrev file : Result ℕ Text
file = ok (codes "yaml")

abbrev unmarshal : Text → Result ℕ (Config ℕ)
unmarshal content = ok cfg
