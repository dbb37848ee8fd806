-- ===== src/LogParser/Process.antt =====
-- cmd/logparser/main.go, `processFile` and `processLogs`.
pub mod Agrees
pub mod Laws
pub mod Tests
use knative_benchmark.Prelude.{
  ℕ, zero, suc, ◌+◌, Bool, true, false, not, ◌||◌, List, [], ◌∷◌, ◌++◌, Option, none, some, Result,
  ok, err, if◌then◌else◌, Text, codes, contains, has_suffix, length, Dict, ℤ,
}
use knative_benchmark.Timestamp.{Timestamp, is_before}
use knative_benchmark.LogParser.Filename.{FilenameError, ExperimentInfo, parse_filename}
use knative_benchmark.LogParser.ConfigLine.{Setting, parse_config}
use knative_benchmark.LogParser.Request.{RequestInfo, parse_request}
use knative_benchmark.LogParser.Database.{Database, Faults, insert_experiment, insert_requests}

-- A file: whether it can be opened, the lines that the scanner gives, and whether it then reports an
-- error.
pub record LogFile : Type 0 where
  pub opens : Bool
  pub lines : List Text
  pub scan_fails : Bool

-- An entry of the directory, with the calls of the driver that fail while it is processed.
pub record DirEntry : Type 0 where
  pub name : Text
  pub is_dir : Bool
  pub file : LogFile
  pub faults : Faults

pub record ProcessingStats : Type 0 where
  pub files_processed : ℕ
  pub experiments_inserted : ℕ
  pub requests_inserted : ℕ

abbrev pub no_stats : ProcessingStats
no_stats = record { files_processed = 0; experiments_inserted = 0; requests_inserted = 0 }

abbrev pub is_request_line : Text → Bool
is_request_line line = contains line (codes "msg=Success") || contains line (codes "msg=Failed")

-- What the library does for the program: times, durations, and the ids of new rows.
pub record Services (T : Type 0) : Type 0 where
  pub parse_time : Text → Option T
  pub zero_time : T
  pub format_time : T → Text
  pub parse_duration : Text → Option ℤ
  pub new_id : Database → ℕ

module _ {T : Type 0} (sv : Services T) where
  unfoldable pub requests_of : List Text → List (RequestInfo T)
  requests_of [] = []
  requests_of (line ∷ lines) =
      let rest = requests_of lines in
      if is_request_line line
      then parse_request sv.parse_time sv.zero_time sv.parse_duration line ∷ rest
      else rest

  -- The first line is dropped, the second is the configuration; `none` is an error.
  read_lines : Bool → List Text → Option (Dict Setting × List (RequestInfo T))
  unfolding requests_of
  read_lines scan_fails [] = none
  read_lines scan_fails (header ∷ []) = none
  read_lines scan_fails (header ∷ config ∷ lines) =
      if scan_fails then none else some (parse_config config, requests_of lines)

  unfoldable pub process_file : LogFile → Option (Dict Setting × List (RequestInfo T))
  unfolding read_lines
  process_file f = if f.opens then read_lines f.scan_fails f.lines else none

  unfoldable pub count_file : List (RequestInfo T) → ProcessingStats → ProcessingStats
  count_file reqs stats = record {
    files_processed = stats.files_processed + 1;
    experiments_inserted = stats.experiments_inserted + 1;
    requests_inserted = stats.requests_inserted + length reqs;
  }

  -- After `insertRequests`; its error leaves the counts alone, and the experiment's row in place.
  after_requests :
      List (RequestInfo T) → ProcessingStats → Bool × Database → ProcessingStats × Database
  unfolding count_file
  after_requests reqs stats (true, db) = (count_file reqs stats, db)
  after_requests reqs stats (false, db) = (stats, db)

  after_experiment :
      Faults
      → List (RequestInfo T)
      → ProcessingStats
      → Option ℕ × Database
      → ProcessingStats × Database
  unfolding after_requests
  after_experiment faults reqs stats (none, db) = (stats, db)
  after_experiment faults [] stats (some id, db) = (count_file [] stats, db)
  after_experiment faults (r ∷ reqs) stats (some id, db) =
      after_requests (r ∷ reqs) stats (insert_requests sv.format_time faults id (r ∷ reqs) db)

  store_file :
      Faults
      → ExperimentInfo
      → Option (Dict Setting × List (RequestInfo T))
      → ProcessingStats × Database
      → ProcessingStats × Database
  unfolding after_experiment
  store_file faults info none (stats, db) = (stats, db)
  store_file faults info (some (config, reqs)) (stats, db) =
      after_experiment faults reqs stats (insert_experiment sv.new_id faults info config db)

  process_named :
      Timestamp
      → DirEntry
      → Result FilenameError ExperimentInfo
      → ProcessingStats × Database
      → ProcessingStats × Database
  unfolding store_file process_file
  process_named cutoff entry (err e) s = s
  process_named cutoff entry (ok info) s =
      if is_before info.timestamp cutoff
      then s
      else store_file entry.faults info (process_file entry.file) s

  -- One round of the loop over the directory.
  unfoldable pub process_entry :
      Timestamp → DirEntry → ProcessingStats × Database → ProcessingStats × Database
  unfolding process_named
  process_entry cutoff entry s =
      if entry.is_dir || not (has_suffix entry.name (codes ".log"))
      then s
      else process_named cutoff entry (parse_filename entry.name) s

  unfoldable pub process_entries :
      Timestamp → List DirEntry → ProcessingStats × Database → ProcessingStats × Database
  unfolding process_entry
  process_entries cutoff [] s = s
  process_entries cutoff (entry ∷ entries) s =
      process_entries cutoff entries (process_entry cutoff entry s)

  -- `processLogs`; `none` is a directory that cannot be read, and `cutoff` is the window's start.
  unfoldable pub process_logs :
      Timestamp → Option (List DirEntry) → Database → Option ProcessingStats × Database
  unfolding process_entries
  process_logs cutoff none db = (none, db)
  process_logs cutoff (some entries) db =
      let (stats, db') = process_entries cutoff entries (no_stats, db) in (some stats, db')
