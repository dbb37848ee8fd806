-- ===== src/Store.antt =====
-- pkg/store/store.go: the path of a log file, with the parts of Go's package `path/filepath` that it
-- is made with, on a system where `/` separates. `now` is the local time.
pub mod Laws
use knative_benchmark.Prelude.{
  ◌++◌, ◌∷◌, [], List, Bool, true, false, ◌||◌, Option, none, some, if◌then◌else◌, Text, codes,
  text_eq, is_empty, split, has_prefix,
}
use knative_benchmark.Timestamp.{Timestamp, format_date, format_clock}

abbrev pub log_suffix : Text
log_suffix = codes ".log"

-- `fmt.Sprintf("%s_%s.log", prefix, now)`
unfoldable pub log_file_name : Text → Timestamp → Text
log_file_name prefix now =
    (prefix ++ b'_' ∷ (format_date now ++ b'_' ∷ format_clock now)) ++ log_suffix

-- `filepath.Clean` goes through the elements of a path and keeps those that are left, the last one
-- first.
unfoldable pub drop_last : Bool → List Text → List Text
drop_last rooted [] = if rooted then [] else codes ".." ∷ []
drop_last rooted (p ∷ kept) = if text_eq p (codes "..") then codes ".." ∷ p ∷ kept else kept

unfoldable pub keep_element : Bool → List Text → Text → List Text
unfolding drop_last
keep_element rooted kept p =
    if is_empty p || text_eq p (codes ".")
    then kept
    else if text_eq p (codes "..")
    then drop_last rooted kept
    else p ∷ kept

unfoldable pub keep_elements : Bool → List Text → List Text → List Text
unfolding keep_element
keep_elements rooted kept [] = kept
keep_elements rooted kept (p ∷ ps) = keep_elements rooted (keep_element rooted kept p) ps

unfoldable pub join_back : List Text → Text
join_back [] = []
join_back (p ∷ []) = p
join_back (p ∷ q ∷ kept) = join_back (q ∷ kept) ++ b'/' ∷ p

unfoldable pub with_root : Bool → List Text → Text
unfolding join_back
with_root true kept = b'/' ∷ join_back kept
with_root false [] = codes "."
with_root false (p ∷ kept) = join_back (p ∷ kept)

unfoldable pub clean : Text → Text
unfolding keep_elements with_root
clean path =
    let rooted = has_prefix path (codes "/") in
    with_root rooted (keep_elements rooted [] (split path b'/'))

-- `filepath.Join(dir, name)`
unfoldable pub join_path : Text → Text → Text
unfolding clean
join_path dir name =
    if is_empty dir then (if is_empty name then [] else clean name) else clean (dir ++ b'/' ∷ name)

unfoldable pub log_file_path : Text → Text → Timestamp → Text
unfolding join_path log_file_name
log_file_path prefix dir now = join_path dir (log_file_name prefix now)

-- `GetLogFileWriter`: the path of the file that is opened, or `none` for the panic if it cannot be.
unfoldable pub log_file_writer : (Text → Bool) → Text → Text → Timestamp → Option Text
unfolding log_file_path
log_file_writer can_open prefix dir now =
    let path = log_file_path prefix dir now in if can_open path then some path else none

-- The name under which a directory lists a file: what follows the last `/` of its path.
unfoldable pub last_of : List Text → Text
last_of [] = []
last_of (p ∷ []) = p
last_of (p ∷ q ∷ ps) = last_of (q ∷ ps)

unfoldable pub base : Text → Text
unfolding last_of
base path = last_of (split path b'/')
