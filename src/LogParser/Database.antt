-- ===== src/LogParser/Database.antt =====
-- cmd/logparser/main.go, `initDB`, `insertExperiment` and `insertRequests`: the two tables, and what
-- is written to them. Which calls of the database driver fail is an argument.
pub mod Laws
use knative_benchmark.Prelude.{
  ℕ, zero, suc, ◌+◌, Bool, true, false, ◌||◌, List, [], ◌∷◌, ◌++◌, Option, none, some,
  if◌then◌else◌, Text, codes, is_empty, Dict, lookup, ℤ, pos, map,
}
use knative_benchmark.Timestamp.{Timestamp, format_rfc3339}
use knative_benchmark.LogParser.Filename.{ExperimentInfo}
use knative_benchmark.LogParser.ConfigLine.{Setting}
use knative_benchmark.LogParser.Request.{RequestInfo}

-- The rows; `none` is NULL.
pub record ExperimentRow : Type 0 where
  pub id : ℕ
  pub timestamp : Text
  pub language : Text
  pub scenario : Text
  pub concurrency : ℤ
  pub rps : ℤ
  pub requests_per_second : Option Setting
  pub duration : Option Setting
  pub max_idle_conns : Option Setting
  pub max_idle_conns_per_host : Option Setting
  pub idle_conn_timeout : Option Setting
  pub timeout : Option Setting
  pub triggers : ℤ
  pub workers : ℤ

pub record RequestRow : Type 0 where
  pub experiment_id : ℕ
  pub timestamp : Text
  pub status : ℤ
  pub ttfb : ℤ
  pub total_time : ℤ
  pub is_cold : Bool
  pub dns_time : ℤ
  pub connect_time : ℤ
  pub tls_time : ℤ
  pub error_message : Text
  pub event_id : Option Text
  pub target : Text

pub record Database : Type 0 where
  pub experiments : List ExperimentRow
  pub requests : List RequestRow

abbrev pub empty_database : Database
empty_database = record { experiments = []; requests = [] }

-- The calls of the driver that fail, the calls of `stmt.Exec` by their number.
pub record Faults : Type 0 where
  pub exec_experiment : Bool
  pub last_insert_id : Bool
  pub begin : Bool
  pub prepare : Bool
  pub exec : ℕ → Bool
  pub commit : Bool

abbrev or_zero : Option ℤ → ℤ
or_zero none = pos 0
or_zero (some n) = n

abbrev param : Text → ExperimentInfo → ℤ
param key info = or_zero (lookup key info.params)

unfoldable pub experiment_row : ℕ → ExperimentInfo → Dict Setting → ExperimentRow
experiment_row id info config = record {
  id = id;
  timestamp = format_rfc3339 info.timestamp;
  language = info.language;
  scenario = info.scenario;
  concurrency = param (codes "concurrency") info;
  rps = param (codes "rps") info;
  requests_per_second = lookup (codes "requests_per_second") config;
  duration = lookup (codes "duration") config;
  max_idle_conns = lookup (codes "max_idle_conns") config;
  max_idle_conns_per_host = lookup (codes "max_idle_conns_per_host") config;
  idle_conn_timeout = lookup (codes "idle_conn_timeout") config;
  timeout = lookup (codes "timeout") config;
  triggers = param (codes "triggers") info;
  workers = param (codes "workers") info;
}

-- The id of the new experiment, or `none` for an error. `new_id` is the id that the database gives to
-- a new row. A failed `LastInsertId` leaves the row.
unfoldable pub insert_experiment :
    (Database → ℕ) → Faults → ExperimentInfo → Dict Setting → Database → Option ℕ × Database
unfolding experiment_row
insert_experiment new_id faults info config db =
    let row = experiment_row (new_id db) info config in
    if faults.exec_experiment then (none, db) else (
      if faults.last_insert_id then none else some (new_id db),
      record db { experiments = db.experiments ++ row ∷ [] },
    )

module _ {T : Type 0} (format_time : T → Text) where
  -- An empty event id is NULL.
  unfoldable pub request_row : ℕ → RequestInfo T → RequestRow
  request_row experiment_id req = record {
    experiment_id = experiment_id;
    timestamp = format_time req.timestamp;
    status = req.status;
    ttfb = req.ttfb;
    total_time = req.total;
    is_cold = req.is_cold;
    dns_time = req.dns;
    connect_time = req.connect;
    tls_time = req.tls;
    error_message = req.error_message;
    event_id = if is_empty req.eventid then none else some req.eventid;
    target = req.target;
  }

  -- The loop over the requests, from the one with number `i`, in the transaction's copy of the table.
  unfoldable pub exec_all :
      Faults → ℕ → ℕ → List (RequestInfo T) → List RequestRow → Option (List RequestRow)
  unfolding request_row
  exec_all faults i experiment_id [] table = some table
  exec_all faults i experiment_id (req ∷ reqs) table =
      let rest =
        exec_all faults (suc i) experiment_id reqs (table ++ request_row experiment_id req ∷ []) in
      if faults.exec i then none else rest

  -- The table is replaced only by a commit; every other way out rolls back.
  commit_rows : Faults → Database → Option (List RequestRow) → Bool × Database
  commit_rows faults db none = (false, db)
  commit_rows faults db (some table) =
      if faults.commit then (false, db) else (true, record db { requests = table })

  -- The first component says that there was no error.
  unfoldable pub insert_requests : Faults → ℕ → List (RequestInfo T) → Database → Bool × Database
  unfolding exec_all commit_rows
  insert_requests faults experiment_id reqs db =
      if faults.begin || faults.prepare
      then (false, db)
      else commit_rows faults db (exec_all faults 0 experiment_id reqs db.requests)
