-- ===== src/LogParser/Process/Tests.antt =====
-- Databases and log files for `insertRequests` and `processLogs` of cmd/logparser/main.go.
use knative_benchmark.LogParser.Tests.{no_time, no_duration, attrs, noon}
use knative_benchmark.Prelude.{
  ℕ, ◌≡◌, refl, true, false, List, [], ◌∷◌, ◌++◌, map, some, codes, length, ◌+◌, ◌⊎◌,
}
use knative_benchmark.Decimal.{atoi}
use knative_benchmark.Timestamp.{is_before, days_in, Timestamp, parse_timestamp}
use knative_benchmark.LogParser.Filename.{parse_filename}
use knative_benchmark.LogParser.Pairs.Values.{line_text}
use knative_benchmark.LogParser.ConfigLine.{parse_config}
use knative_benchmark.LogParser.Request.{RequestInfo, parse_request}
use knative_benchmark.LogParser.Database.{
  insert_experiment, empty_database, Faults, request_row, insert_requests,
}
use knative_benchmark.LogParser.Database.Laws.{insert_requests_atomic}
use knative_benchmark.LogParser.Process.{DirEntry, ProcessingStats, Services, process_logs}
use knative_benchmark.LogParser.Process.Agrees.{Agrees}
use knative_benchmark.LogParser.Process.Laws.{process_logs-Agrees}

abbrev no_faults : Faults
no_faults = record {
  exec_experiment = false;
  last_insert_id = false;
  begin = false;
  prepare = false;
  exec = λ i. false;
  commit = false;
}

abbrev services : Services ℕ
services = record {
  parse_time = no_time;
  zero_time = 0;
  format_time = λ t. [];
  parse_duration = no_duration;
  new_id = λ db. length db.experiments + 1;
}

abbrev a_request : RequestInfo ℕ
a_request = parse_request no_time 0 no_duration (line_text attrs)

insert_requests_atomic_example :
    (insert_requests services.format_time no_faults 1 (a_request ∷ []) empty_database ≡ (
      true,
      record {
        experiments = [];
        requests = [] ++ map (request_row services.format_time 1) (a_request ∷ []);
      },
    ))
    ⊎ (insert_requests services.format_time no_faults 1 (a_request ∷ []) empty_database
        ≡ (false, empty_database))
insert_requests_atomic_example =
    insert_requests_atomic services.format_time no_faults 1 (a_request ∷ []) empty_database

abbrev entries : List DirEntry
entries =
    record {
      name = codes "serving_go_10rps_2024-02-29_12-00-05.log";
      is_dir = false;
      file = record {
        opens = true;
        lines = codes "start" ∷ codes "config" ∷ codes "msg=Success id=1" ∷ [];
        scan_fails = false;
      };
      faults = no_faults;
    }
    ∷ []

abbrev reported : ProcessingStats
reported = record { files_processed = 1; experiments_inserted = 1; requests_inserted = 1 }

abbrev cutoff : Timestamp
cutoff = record noon { nanos = 0 }

reports : (process_logs services cutoff (some entries) empty_database).0 ≡ some reported
unfolding process_logs parse_filename parse_timestamp days_in atoi is_before parse_config
    parse_request insert_requests insert_experiment
reports = refl

process_logs-Agrees_example :
    Agrees empty_database reported (process_logs services cutoff (some entries) empty_database).1
process_logs-Agrees_example =
    process_logs-Agrees services empty_database cutoff entries reported tt reports
