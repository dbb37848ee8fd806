-- ===== src/LogParser/Process/Agrees.antt =====
-- cmd/logparser/main.go: when the counts of `processLogs` agree with the rows of the two tables.
use knative_benchmark.Prelude.{
  ℕ, suc, ◌+◌, ◌≤◌, ◌≡◌, refl, ap, Bool, true, false, ◌||◌, List, [], ◌∷◌, ◌++◌, map, arith, All,
  All-append, length, length-append, ◌==◌,
}
use knative_benchmark.LogParser.Request.{RequestInfo}
use knative_benchmark.LogParser.Database.{Database, RequestRow, ExperimentRow, request_row}
use knative_benchmark.LogParser.Process.{ProcessingStats, Services, count_file}

abbrev pub has_id : ℕ → List ExperimentRow → Bool
has_id id [] = false
has_id id (row ∷ rows) = row.id == id || has_id id rows

-- Every request belongs to a row of the experiments.
abbrev pub IsLinked : List ExperimentRow → List RequestRow → Type 0
IsLinked experiments = All (λ r. has_id r.experiment_id experiments ≡ true)

-- The counts against the rows that were added to `before`: the requests exactly, the experiments at
-- most, since an experiment whose requests fail keeps its row and is not counted.
pub record Agrees (before : Database) (stats : ProcessingStats) (db : Database) : Type 0 where
  pub requests : length db.requests ≡ length before.requests + stats.requests_inserted
  pub experiments : length before.experiments + stats.experiments_inserted ≤ length db.experiments
  pub files : stats.files_processed ≡ stats.experiments_inserted
  pub linked : IsLinked db.experiments db.requests

-- The same while the file with this experiment is not counted yet.
pub record IsPending (before : Database) (stats : ProcessingStats) (db : Database) (id : ℕ)
    : Type 0 where
  pub agrees : Agrees before stats db
  pub room : length before.experiments + stats.experiments_inserted + 1 ≤ length db.experiments
  pub known : has_id id db.experiments ≡ true

pub has_id-append :
    (id : ℕ) (rows more : List ExperimentRow)
    → has_id id rows ≡ true
    → has_id id (rows ++ more) ≡ true
has_id-append id [] more h = absurd (ground arith)
has_id-append id (row ∷ rows) more h = ground (arith, has_id-append id rows more)

pub has_id_last :
    (rows : List ExperimentRow) (row : ExperimentRow) → has_id row.id (rows ++ row ∷ []) ≡ true
has_id_last [] row = ground arith
has_id_last (r ∷ rows) row = ground (arith, has_id_last rows row)

pub IsLinked-append :
    (experiments more : List ExperimentRow) (rows : List RequestRow)
    → IsLinked experiments rows
    → IsLinked (experiments ++ more) rows
IsLinked-append experiments more [] _ = tt
IsLinked-append experiments more (r ∷ rows) (h, hs) =
    (has_id-append r.experiment_id experiments more h, IsLinked-append experiments more rows hs)

length-map : {A B : Type 0} (f : A → B) (xs : List A) → length (map f xs) ≡ length xs
length-map f [] = refl
length-map f (x ∷ xs) = ap suc (length-map f xs)

module _ {T : Type 0} (sv : Services T) (before : Database) where
  IsLinked-map :
      (experiments : List ExperimentRow) (id : ℕ) (reqs : List (RequestInfo T))
      → has_id id experiments ≡ true
      → IsLinked experiments (map (request_row sv.format_time id) reqs)
  unfolding request_row
  IsLinked-map experiments id [] h = tt
  IsLinked-map experiments id (req ∷ reqs) h = (h, IsLinked-map experiments id reqs h)

  pub add_experiment :
      (stats : ProcessingStats) (db : Database) (row : ExperimentRow)
      → Agrees before stats db
      → IsPending before stats (record db { experiments = db.experiments ++ row ∷ [] }) row.id
  add_experiment stats db row h =
      let longer : length (db.experiments ++ row ∷ []) ≡ length db.experiments + 1 =
        length-append db.experiments (row ∷ []) in
      record {
        agrees = record {
          requests = h.requests;
          experiments = omega arith;
          files = h.files;
          linked = IsLinked-append db.experiments (row ∷ []) db.requests h.linked;
        };
        room = omega arith;
        known = has_id_last db.experiments row;
      }

  pub count_empty :
      (stats : ProcessingStats) (db : Database) (id : ℕ)
      → IsPending before stats db id
      → Agrees before (count_file sv [] stats) db
  unfolding count_file
  count_empty stats db id p = record {
    requests = omega arith;
    experiments = omega arith;
    files = omega arith;
    linked = p.agrees.linked;
  }

  pub count_all :
      (stats : ProcessingStats) (db : Database) (id : ℕ) (reqs : List (RequestInfo T))
      → IsPending before stats db id
      → Agrees before
          (count_file sv reqs stats)
          (record db { requests = db.requests ++ map (request_row sv.format_time id) reqs })
  unfolding count_file
  count_all stats db id reqs p =
      let rows = map (request_row sv.format_time id) reqs in
      record {
        requests = omega (
          arith,
          length-append db.requests rows,
          length-map (request_row sv.format_time id) reqs,
        );
        experiments = omega arith;
        files = omega arith;
        linked =
            All-append (λ r. has_id r.experiment_id db.experiments ≡ true) db.requests rows
              p.agrees.linked (IsLinked-map db.experiments id reqs p.known);
      }
