-- ===== src/LogParser/Process/Laws.antt =====
-- cmd/logparser/main.go: `processLogs` against the rows of the two tables.
use mathlib.Core.Path.{subst}
use knative_benchmark.Prelude.{
  ℕ, ◌≡◌, refl, not, ◌||◌, List, [], ◌∷◌, ◌++◌, Option, none, some, Result, ok, err, codes,
  has_suffix, arith, Bool-cases, inl, inr, ◌⊎◌, Dict,
}
use knative_benchmark.Timestamp.{Timestamp, is_before}
use knative_benchmark.LogParser.Filename.{FilenameError, ExperimentInfo, parse_filename}
use knative_benchmark.LogParser.ConfigLine.{Setting}
use knative_benchmark.LogParser.Request.{RequestInfo}
use knative_benchmark.LogParser.Database.{
  Database, Faults, experiment_row, insert_experiment, insert_requests,
}
use knative_benchmark.LogParser.Database.Laws.{insert_requests_atomic}
use knative_benchmark.LogParser.Process.Agrees.{
  IsLinked, Agrees, IsPending, add_experiment, count_empty, count_all,
}
use knative_benchmark.LogParser.Process.{
  DirEntry, ProcessingStats, no_stats, Services, process_file, after_requests, after_experiment,
  store_file, process_named, process_entry, process_entries, process_logs,
}

module _ {T : Type 0} (sv : Services T) (before : Database) where
  after_requests-Agrees :
      (faults : Faults) (stats : ProcessingStats) (db : Database) (id : ℕ)
      (reqs : List (RequestInfo T))
      → IsPending before stats db id
      → let r = after_requests sv reqs stats (insert_requests sv.format_time faults id reqs db) in
        Agrees before r.0 r.1
  unfolding after_requests
  after_requests-Agrees faults stats db id reqs p =
      elim (insert_requests_atomic sv.format_time faults id reqs db) [
        | inl done ↦ rw done (count_all sv before stats db id reqs p)
        | inr undone ↦ rw undone p.agrees
      ]

  after_experiment-Agrees :
      (faults : Faults) (stats : ProcessingStats) (db : Database) (id : ℕ)
      (reqs : List (RequestInfo T))
      → IsPending before stats db id
      → let r = after_experiment sv faults reqs stats (some id, db) in Agrees before r.0 r.1
  unfolding after_experiment
  after_experiment-Agrees faults stats db id [] p = count_empty sv before stats db id p
  after_experiment-Agrees faults stats db id (r ∷ reqs) p =
      after_requests-Agrees faults stats db id (r ∷ reqs) p

  -- An experiment is not written, or it is written and its id is lost, or it is written.
  insert_experiment-cases :
      (faults : Faults) (info : ExperimentInfo) (config : Dict Setting) (db : Database)
      → let row = experiment_row (sv.new_id db) info config in
        let added = record db { experiments = db.experiments ++ row ∷ [] } in
        (insert_experiment sv.new_id faults info config db ≡ (none, db))
        ⊎ ((insert_experiment sv.new_id faults info config db ≡ (none, added))
            ⊎ (insert_experiment sv.new_id faults info config db ≡ (some row.id, added)))
  unfolding insert_experiment
  insert_experiment-cases faults info config db = elim (Bool-cases faults.exec_experiment) [
    | inl fails ↦ inl (rw fails refl)
    | inr fine ↦ elim (Bool-cases faults.last_insert_id) [
      | inl lost ↦ inr (inl (rw (fine, lost) refl))
      | inr found ↦ inr (inr (rw (fine, found) refl))
    ]
  ]

  store_file-Agrees :
      (faults : Faults) (info : ExperimentInfo)
      (content : Option (Dict Setting × List (RequestInfo T))) (stats : ProcessingStats)
      (db : Database)
      → Agrees before stats db
      → let r = store_file sv faults info content (stats, db) in Agrees before r.0 r.1
  unfolding store_file
  store_file-Agrees faults info none stats db h = h
  store_file-Agrees faults info (some (config, reqs)) stats db h =
      let row = experiment_row (sv.new_id db) info config in
      let added : Database = record db { experiments = db.experiments ++ row ∷ [] } in
      let pending : IsPending before stats added row.id = add_experiment sv before stats db row h in
      elim (insert_experiment-cases faults info config db) [
        | inl e ↦ rw e (unfold after_experiment in h)
        | inr (inl e) ↦ rw e (unfold after_experiment in pending.agrees)
        | inr (inr e) ↦ rw e (after_experiment-Agrees faults stats added row.id reqs pending)
      ]

  process_named-Agrees :
      (cutoff : Timestamp) (entry : DirEntry) (name : Result FilenameError ExperimentInfo)
      (s : ProcessingStats × Database)
      → Agrees before s.0 s.1
      → let r = process_named sv cutoff entry name s in Agrees before r.0 r.1
  unfolding process_named
  process_named-Agrees cutoff entry (err e) s h = h
  process_named-Agrees cutoff entry (ok info) (stats, db) h =
      elim (Bool-cases (is_before info.timestamp cutoff)) [
        | inl old ↦ rw old h
        | inr recent ↦
            rw recent (store_file-Agrees entry.faults info (process_file sv entry.file) stats db h)
      ]

  process_entry-Agrees :
      (cutoff : Timestamp) (entry : DirEntry) (s : ProcessingStats × Database)
      → Agrees before s.0 s.1
      → let r = process_entry sv cutoff entry s in Agrees before r.0 r.1
  unfolding process_entry
  process_entry-Agrees cutoff entry s h =
      elim (Bool-cases (entry.is_dir || not (has_suffix entry.name (codes ".log")))) [
        | inl skipped ↦ rw skipped h
        | inr kept ↦ rw kept (process_named-Agrees cutoff entry (parse_filename entry.name) s h)
      ]

  process_entries-Agrees :
      (cutoff : Timestamp) (entries : List DirEntry) (s : ProcessingStats × Database)
      → Agrees before s.0 s.1
      → let r = process_entries sv cutoff entries s in Agrees before r.0 r.1
  unfolding process_entries
  process_entries-Agrees cutoff [] s h = h
  process_entries-Agrees cutoff (entry ∷ entries) s h =
      process_entries-Agrees cutoff entries (process_entry sv cutoff entry s)
        (process_entry-Agrees cutoff entry s h)

  -- From a database whose requests all belong to experiments, whatever files there are and whatever
  -- calls of the driver fail: the reported number of requests is the number of rows added to the
  -- requests, the reported number of experiments is that of the files and at most the number of rows
  -- added to the experiments, and every request still belongs to an experiment.
  pub process_logs-Agrees :
      (cutoff : Timestamp) (entries : List DirEntry) (stats : ProcessingStats)
      → IsLinked before.experiments before.requests
      → (process_logs sv cutoff (some entries) before).0 ≡ some stats
      → Agrees before stats (process_logs sv cutoff (some entries) before).1
  unfolding process_logs
  process_logs-Agrees cutoff entries stats linked e =
      let start : Agrees before no_stats before = record {
        requests = omega arith;
        experiments = omega arith;
        files = refl;
        linked = linked;
      } in
      let db = (process_entries sv cutoff entries (no_stats, before)).1 in
      let same : (process_entries sv cutoff entries (no_stats, before)).0 ≡ stats = cc in
      subst (λ st. Agrees before st db) same
        (process_entries-Agrees cutoff entries (no_stats, before) start)
