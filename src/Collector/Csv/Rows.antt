-- ===== src/Collector/Csv/Rows.antt =====
-- cmd/top/main.go, `CSVStorage`: what a store does to the rows of the files.
use knative_benchmark.Prelude.{
  ◌≡◌, ◌≢◌, refl, false, Bool-cases, List, [], ◌∷◌, ◌++◌, drop, none, Text, text_eq, text_eq_refl,
  Dict, insert, lookup-insert, if◌then◌else◌, All, arith, inl, inr, ◌⊎◌,
}
use knative_benchmark.Collector.Csv.{
  CsvFaults, Files, next_faults, later_faults, rows_in, append_record, store_row,
}

-- No flush to come fails.
abbrev pub IsFlushed : Files → Type 0
IsFlushed s = All (λ f. f.flush ≡ false) s.faults

-- The rows of a file behind its header.
abbrev pub records : Text → Files → List (List Text)
records path s = drop 1 (rows_in path s.content)

rows_in-insert :
    (path other : Text) (rows : List (List Text)) (content : Dict (List (List Text)))
    → rows_in other (insert path rows content)
      ≡ (if text_eq path other then rows else rows_in other content)
unfolding rows_in
rows_in-insert path other rows content = elim (Bool-cases (text_eq path other)) [
  | inl same ↦ rw (lookup-insert path other rows content, same) refl
  | inr differ ↦ rw (lookup-insert path other rows content, differ) refl
]

append_record-drop :
    (f : CsvFaults) (header row : List Text) (old : List (List Text))
    → f.flush ≡ false
    → (append_record f header row old).0 ≡ none
    → drop 1 (append_record f header row old).1 ≡ drop 1 old ++ row ∷ []
unfolding append_record
append_record-drop f header row [] flushes fine = ground arith
append_record-drop f header row (r ∷ rs) flushes fine = ground arith

append_record-failed :
    (f : CsvFaults) (header row : List Text) (old : List (List Text))
    → (append_record f header row old).0 ≢ none
    → (append_record f header row old).1 ≡ old
unfolding append_record
append_record-failed f header row [] failed = ground arith
append_record-failed f header row (r ∷ rs) failed = ground arith

next-flushed :
    (fs : List CsvFaults) → All (λ f. f.flush ≡ false) fs → (next_faults fs).flush ≡ false
next-flushed [] h = refl
next-flushed (f ∷ fs) (h, hs) = h

pub later-flushed :
    (fs : List CsvFaults)
    → All (λ f. f.flush ≡ false) fs
    → All (λ f. f.flush ≡ false) (later_faults fs)
later-flushed [] h = tt
later-flushed (f ∷ fs) (h, hs) = hs

-- A store changes the file of its path alone.
pub store_row-path :
    (path : Text) (header row : List Text) (s : Files) (other : Text)
    → text_eq path other ≡ false
    → rows_in other (store_row path header row s).1.content ≡ rows_in other s.content
unfolding store_row
store_row-path path header row s other differ = ground (
  arith,
  rows_in-insert path other (rows_in path s.content) s.content,
  rows_in-insert path other
      (append_record (next_faults s.faults) header row (rows_in path s.content)).1 s.content,
)

pub store_row-stored :
    (path : Text) (header row : List Text) (s : Files)
    → IsFlushed s
    → (store_row path header row s).0 ≡ none
    → records path (store_row path header row s).1 ≡ records path s ++ row ∷ []
unfolding store_row
store_row-stored path header row s flushed fine = ground (
  arith,
  text_eq_refl path,
  rows_in-insert path path
      (append_record (next_faults s.faults) header row (rows_in path s.content)).1 s.content,
  append_record-drop (next_faults s.faults) header row (rows_in path s.content),
  next-flushed s.faults flushed,
)

pub store_row-failed :
    (path : Text) (header row : List Text) (s : Files)
    → (store_row path header row s).0 ≢ none
    → rows_in path (store_row path header row s).1.content ≡ rows_in path s.content
unfolding store_row
store_row-failed path header row s failed = ground (
  arith,
  text_eq_refl path,
  rows_in-insert path path (rows_in path s.content) s.content,
  rows_in-insert path path
      (append_record (next_faults s.faults) header row (rows_in path s.content)).1 s.content,
  append_record-failed (next_faults s.faults) header row (rows_in path s.content),
)

pub store_row-faults :
    (path : Text) (header row : List Text) (s : Files)
    → (store_row path header row s).1.faults ≡ later_faults s.faults
unfolding store_row
store_row-faults path header row s = ground arith

-- A file is empty or begins with its header.
abbrev pub HasHeader : List Text → List (List Text) → Type 0
HasHeader header rows = (rows ≡ []) ⊎ (rows ≡ header ∷ drop 1 rows)

append_record-HasHeader :
    (f : CsvFaults) (header row : List Text) (old : List (List Text))
    → HasHeader header old
    → HasHeader header (append_record f header row old).1
unfolding append_record
append_record-HasHeader f header row [] h = ground arith
append_record-HasHeader f header row (r ∷ rs) h = ground arith

store_row-cases :
    (path : Text) (header row : List Text) (s : Files)
    → (rows_in path (store_row path header row s).1.content ≡ rows_in path s.content)
      ⊎ (rows_in path (store_row path header row s).1.content
          ≡ (append_record (next_faults s.faults) header row (rows_in path s.content)).1)
unfolding store_row
store_row-cases path header row s = ground (
  arith,
  text_eq_refl path,
  rows_in-insert path path (rows_in path s.content) s.content,
  rows_in-insert path path
      (append_record (next_faults s.faults) header row (rows_in path s.content)).1 s.content,
)

pub store_row-HasHeader :
    (path : Text) (header row : List Text) (s : Files)
    → HasHeader header (rows_in path s.content)
    → HasHeader header (rows_in path (store_row path header row s).1.content)
store_row-HasHeader path header row s h = elim (store_row-cases path header row s) [
  | inl same ↦ rw same h
  | inr appended ↦
      rw appended
        (append_record-HasHeader (next_faults s.faults) header row (rows_in path s.content) h)
]
