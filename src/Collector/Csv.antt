-- ===== src/Collector/Csv.antt =====
-- cmd/top/main.go, `CSVStorage`. A file is the rows that it holds, and is empty if it has none; its
-- name is relative to the directory of the storage.
pub mod Rows
pub mod Laws
use knative_benchmark.Prelude.{
  Bool, true, false, List, [], ◌∷◌, ◌++◌, Option, none, some, if◌then◌else◌, Text, codes, Dict,
  insert, lookup, Float,
}
use knative_benchmark.Collector.{NodeMetrics, PodMetrics, Storage}

-- Which calls of a store fail. What the writer has buffered is written when it is flushed, all of it or
-- nothing; after an error of the writer nothing is.
pub record CsvFaults : Type 0 where
  pub opening : Bool
  pub stat : Bool
  pub write_header : Bool
  pub write_record : Bool
  pub flush : Bool

-- The files, and the faults of the calls to come; there are none when the list ends.
pub record Files : Type 0 where
  pub content : Dict (List (List Text))
  pub faults : List CsvFaults

pub data CsvError : Type 0 where
  cannot_open cannot_stat cannot_write_header cannot_write_record : CsvError

abbrev pub no_csv_faults : CsvFaults
no_csv_faults = record {
  opening = false;
  stat = false;
  write_header = false;
  write_record = false;
  flush = false;
}

abbrev pub next_faults : List CsvFaults → CsvFaults
next_faults [] = no_csv_faults
next_faults (f ∷ fs) = f

abbrev pub later_faults : List CsvFaults → List CsvFaults
later_faults [] = []
later_faults (f ∷ fs) = fs

abbrev rows_or_none : Option (List (List Text)) → List (List Text)
rows_or_none none = []
rows_or_none (some rows) = rows

-- The rows of a file, none if there is no file.
unfoldable pub rows_in : Text → Dict (List (List Text)) → List (List Text)
rows_in path content = rows_or_none (lookup path content)

-- An empty file gets the header and the record, and another the record.
unfoldable pub append_record :
    CsvFaults → (header row : List Text) → List (List Text) → Option CsvError × List (List Text)
append_record f header row [] =
    if f.write_header
    then (some cannot_write_header, [])
    else if f.write_record
    then (some cannot_write_record, [])
    else (none, if f.flush then [] else header ∷ row ∷ [])
append_record f header row (r ∷ rs) =
    if f.write_record
    then (some cannot_write_record, r ∷ rs)
    else (none, if f.flush then r ∷ rs else (r ∷ rs) ++ row ∷ [])

-- The file is created when it is opened; the error of `Flush` is not looked at.
unfoldable pub store_row : Text → (header row : List Text) → Files → Option CsvError × Files
unfolding append_record rows_in
store_row path header row s =
    let f = next_faults s.faults in
    let left = later_faults s.faults in
    let old = rows_in path s.content in
    let (e, new) = append_record f header row old in
    if f.opening
    then (some cannot_open, record s { faults = left })
    else if f.stat
    then (some cannot_stat, record { content = insert path old s.content; faults = left })
    else (e, record { content = insert path new s.content; faults = left })

abbrev pub node_path : Text
node_path = codes "node_metrics.csv"

unfoldable pub pod_path : Text → Text
pod_path name = name ++ codes "_pod_metrics.csv"

abbrev pub node_header : List Text
node_header =
    codes "node_name"
    ∷ codes "cpu_usage"
    ∷ codes "memory_usage"
    ∷ codes "cpu_percentage"
    ∷ codes "memory_percentage"
    ∷ codes "timestamp"
    ∷ []

abbrev pub pod_header : List Text
pod_header =
    codes "pod_name"
    ∷ codes "node_name"
    ∷ codes "container_name"
    ∷ codes "cpu_usage"
    ∷ codes "memory_usage"
    ∷ codes "cpu_percentage"
    ∷ codes "memory_percentage"
    ∷ codes "timestamp"
    ∷ []

-- `print4` is the format `%.4f`.
module _ {F : Type 0} (print4 : F → Text) where
  unfoldable pub node_record : NodeMetrics F → List Text
  node_record m =
      m.name
      ∷ m.cpu_usage
      ∷ m.memory_usage
      ∷ print4 m.cpu_percentage
      ∷ print4 m.memory_percentage
      ∷ m.timestamp
      ∷ []

  unfoldable pub pod_record : PodMetrics F → List Text
  pod_record m =
      m.pod_name
      ∷ m.node_name
      ∷ m.container_name
      ∷ m.cpu_usage
      ∷ m.memory_usage
      ∷ print4 m.cpu_percentage
      ∷ print4 m.memory_percentage
      ∷ m.timestamp
      ∷ []

  unfoldable pub csv_storage : Storage Files CsvError F
  unfolding store_row pod_path node_record pod_record
  csv_storage = record {
    store_node_metrics = λ m s. store_row node_path node_header (node_record m) s;
    store_pod_metrics = λ m s. store_row (pod_path m.pod_name) pod_header (pod_record m) s;
    close = λ s. (none, s);
  }
