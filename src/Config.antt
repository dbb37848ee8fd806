-- ===== src/Config.antt =====
-- pkg/config/config.go: the configuration of a benchmark run, and `Load`.
pub mod Laws
pub mod Tests
use knative_benchmark.Prelude.{
  Bool, List, map, Result, ok, ◌>>=◌, if◌then◌else◌, Text, codes, Dict, ℤ,
}

-- `headers` is a Go map, read in the order of its iteration.
pub record Target : Type 0 where
  pub url : Text
  pub headers : Dict Text
  pub weight : ℤ
  pub host_header : Text
  pub body : Text

-- The floats are a parameter `F`; a duration is an integer of nanoseconds.
pub record Rate (F : Type 0) : Type 0 where
  pub requests_per_second : F
  pub duration : ℤ
  pub max_idle_conns : ℤ
  pub max_idle_conns_per_host : ℤ
  pub idle_conn_timeout : ℤ
  pub timeout : ℤ

pub record Config (F : Type 0) : Type 0 where
  pub targets : List Target
  pub rate : Rate F
  pub base_url : Text
  pub log_dir_path : Text

-- `UnmarshalYAML` of a duration: the scalar is read as a string, and the string as a duration.
unfoldable pub unmarshal_duration :
    {E A D : Type 0}
    → (unmarshal : A → Result E Text) (parse_duration : Text → Result E D) → A
    → Result E D
unmarshal_duration unmarshal parse_duration node = do
  str ← unmarshal node
  duration ← parse_duration str
  ok duration

abbrev pub dev_url : Text
dev_url = codes "http://localhost:8080"

-- In dev mode the URL of a target is used as its Host header.
unfoldable pub to_dev : Text → Target → Target
to_dev base t = record t { host_header = t.url; url = base }

module _ {F : Type 0} where
  unfoldable pub dev_config : Config F → Config F
  unfolding to_dev
  dev_config cfg = record cfg { base_url = dev_url; targets = map (to_dev dev_url) cfg.targets }

  -- `Load`: what `os.ReadFile` and `yaml.Unmarshal` give are arguments.
  unfoldable pub load :
      {E : Type 0} → Result E Text → (Text → Result E (Config F)) → Bool → Result E (Config F)
  unfolding dev_config
  load file unmarshal dev_mode = do
    content ← file
    cfg ← unmarshal content
    ok (if dev_mode then dev_config cfg else cfg)
