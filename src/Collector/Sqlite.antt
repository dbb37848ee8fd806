-- ===== src/Collector/Sqlite.antt =====
-- cmd/top/main.go, `SQLiteStorage`: its two tables. Which calls of the database fail is part of the
-- state.
pub mod Laws
use knative_benchmark.Prelude.{
  Bool, true, false, List, [], ◌∷◌, ◌++◌, Option, none, some, if◌then◌else◌, Text,
}
use knative_benchmark.Collector.{NodeMetrics, PodMetrics, Storage}

-- A row has the metrics as they are, but no `ContainerTimestamp` and no `ContainerWindow`.
pub record PodRow (F : Type 0) : Type 0 where
  pub pod_name : Text
  pub node_name : Text
  pub container_name : Text
  pub cpu_usage : Text
  pub memory_usage : Text
  pub cpu_percentage : F
  pub memory_percentage : F
  pub timestamp : Text

-- The tables, and the faults of the calls to come; there are none when the list ends.
pub record Tables (F : Type 0) : Type 0 where
  pub node_metrics : List (NodeMetrics F)
  pub pod_metrics : List (PodRow F)
  pub faults : List Bool

pub data SqliteError : Type 0 where
  cannot_create_directory cannot_open_database cannot_create_tables : SqliteError
  cannot_store cannot_close : SqliteError

abbrev pub next_fault : List Bool → Bool
next_fault [] = false
next_fault (f ∷ fs) = f

abbrev pub later : List Bool → List Bool
later [] = []
later (f ∷ fs) = fs

-- `NewSQLiteStorage` on a database with these tables; `createTables` leaves those that exist.
unfoldable pub new_sqlite_storage :
    {F : Type 0}
    → (mkdir_fails open_fails create_fails : Bool) → Tables F
    → Option SqliteError × Tables F
new_sqlite_storage mkdir_fails open_fails create_fails t =
    if mkdir_fails
    then (some cannot_create_directory, t)
    else if open_fails
    then (some cannot_open_database, t)
    else if create_fails
    then (some cannot_create_tables, t)
    else (none, t)

module _ {F : Type 0} where
  unfoldable pub pod_row : PodMetrics F → PodRow F
  pod_row m = record {
    pod_name = m.pod_name;
    node_name = m.node_name;
    container_name = m.container_name;
    cpu_usage = m.cpu_usage;
    memory_usage = m.memory_usage;
    cpu_percentage = m.cpu_percentage;
    memory_percentage = m.memory_percentage;
    timestamp = m.timestamp;
  }

  unfoldable pub insert_node : NodeMetrics F → Tables F → Option SqliteError × Tables F
  insert_node m t =
      if next_fault t.faults
      then (some cannot_store, record t { faults = later t.faults })
      else (none, record t { node_metrics = t.node_metrics ++ m ∷ []; faults = later t.faults })

  unfoldable pub insert_pod : PodMetrics F → Tables F → Option SqliteError × Tables F
  unfolding pod_row
  insert_pod m t =
      if next_fault t.faults then (some cannot_store, record t { faults = later t.faults }) else (
        none,
        record t { pod_metrics = t.pod_metrics ++ pod_row m ∷ []; faults = later t.faults },
      )

  unfoldable pub close_database : Tables F → Option SqliteError × Tables F
  close_database t = (
    if next_fault t.faults then some cannot_close else none,
    record t { faults = later t.faults },
  )

  unfoldable pub sqlite_storage : Storage (Tables F) SqliteError F
  unfolding insert_node insert_pod close_database
  sqlite_storage = record {
    store_node_metrics = λ m t. insert_node m t;
    store_pod_metrics = λ m t. insert_pod m t;
    close = λ t. close_database t;
  }
