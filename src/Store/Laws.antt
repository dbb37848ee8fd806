-- ===== src/Store/Laws.antt =====
-- pkg/store/store.go: the name of a log file in its directory.
use knative_benchmark.Prelude.{
  ◌≡◌, ◌≢◌, refl, ap, inl, inr, ◌++◌, ◌∷◌, [], List, Bool, true, false, Text, codes, text_eq,
  is_empty, split, split-append, split_whole, Lacks, All-append, arith, Bool-cases, has_prefix, ℕ,
  text_ne, length, length-append,
}
use knative_benchmark.Timestamp.{Timestamp, format_date, format_clock}
use knative_benchmark.Timestamp.Laws.{IsValid, format_date-no_slash, format_clock-no_slash}
use knative_benchmark.Store.{
  log_suffix, log_file_name, keep_element, keep_elements, join_back, with_root, clean, join_path,
  log_file_path, last_of, base,
}

last_of-append : (ps : List Text) (p : Text) → last_of (ps ++ p ∷ []) ≡ p
unfolding last_of
last_of-append [] p = refl
last_of-append (q ∷ []) p = refl
last_of-append (q ∷ r ∷ ps) p = last_of-append (r ∷ ps) p

base-append : (q p : Text) → Lacks b'/' p → base (q ++ b'/' ∷ p) ≡ p
unfolding base
base-append q p h =
    rw (split-append q p b'/', split_whole p b'/' h) (last_of-append (split q b'/') p)

base-whole : (p : Text) → Lacks b'/' p → base p ≡ p
unfolding base last_of
base-whole p h = rw (split_whole p b'/' h) refl

-- An element that is kept: not empty, not `.` and not `..`.
abbrev pub IsElement : Text → Type 0
IsElement p =
    (is_empty p ≡ false) × (text_eq p (codes ".") ≡ false) × (text_eq p (codes "..") ≡ false)

keep_element-IsElement :
    (rooted : Bool) (kept : List Text) (p : Text)
    → IsElement p
    → keep_element rooted kept p ≡ p ∷ kept
unfolding keep_element
keep_element-IsElement rooted kept p (full, dot, dots) = rw (full, dot, dots) refl

keep_elements-append :
    (rooted : Bool) (ps kept : List Text) (p : Text)
    → IsElement p
    → keep_elements rooted kept (ps ++ p ∷ []) ≡ p ∷ keep_elements rooted kept ps
unfolding keep_elements
keep_elements-append rooted [] kept p h = keep_element-IsElement rooted kept p h
keep_elements-append rooted (q ∷ ps) kept p h =
    keep_elements-append rooted ps (keep_element rooted kept q) p h

base-with_root :
    (rooted : Bool) (p : Text) (kept : List Text)
    → Lacks b'/' p
    → base (with_root rooted (p ∷ kept)) ≡ p
unfolding with_root join_back
base-with_root true p [] h = base-append [] p h
base-with_root true p (q ∷ kept) h = base-append (b'/' ∷ join_back (q ∷ kept)) p h
base-with_root false p [] h = base-whole p h
base-with_root false p (q ∷ kept) h = base-append (join_back (q ∷ kept)) p h

base-clean : (dir p : Text) → Lacks b'/' p → IsElement p → base (clean (dir ++ b'/' ∷ p)) ≡ p
unfolding clean
base-clean dir p h element =
    let rooted = has_prefix (dir ++ b'/' ∷ p) (codes "/") in
    rw
      (
        split-append dir p b'/',
        split_whole p b'/' h,
        keep_elements-append rooted (split dir b'/') [] p element,
      )
      (base-with_root rooted p (keep_elements rooted [] (split dir b'/')) h)

base-clean_whole : (p : Text) → Lacks b'/' p → IsElement p → base (clean p) ≡ p
unfolding clean
base-clean_whole p h element =
    let rooted = has_prefix p (codes "/") in
    rw (split_whole p b'/' h, keep_elements-append rooted [] [] p element)
      (base-with_root rooted p [] h)

pub base-join_path : (dir p : Text) → Lacks b'/' p → IsElement p → base (join_path dir p) ≡ p
unfolding join_path
base-join_path dir p h (full, dot, dots) = elim (Bool-cases (is_empty dir)) [
  | inl e ↦ rw (e, full) (base-clean_whole p h (full, dot, dots))
  | inr e ↦ rw e (base-clean dir p h (full, dot, dots))
]

ends_in_suffix-IsElement : (s : Text) → IsElement (s ++ log_suffix)
ends_in_suffix-IsElement [] = (refl, refl, refl)
ends_in_suffix-IsElement (c ∷ s) = (
  refl,
  text_ne ((c ∷ s) ++ log_suffix) (codes ".")
      (λ e. omega (arith, ap (length {A = ℕ}) e, length-append s log_suffix)),
  text_ne ((c ∷ s) ++ log_suffix) (codes "..")
      (λ e. omega (arith, ap (length {A = ℕ}) e, length-append s log_suffix)),
)

log_file_name-Lacks :
    (prefix : Text) (t : Timestamp)
    → IsValid t
    → Lacks b'/' prefix
    → Lacks b'/' (log_file_name prefix t)
unfolding log_file_name
log_file_name-Lacks prefix t v h =
    let Slashless = λ (c : ℕ). c ≢ b'/' in
    let clock = format_clock-no_slash t v in
    let time =
      All-append Slashless (format_date t) (b'_' ∷ format_clock t) (format_date-no_slash t v)
        (omega arith, clock) in
    All-append Slashless (prefix ++ b'_' ∷ (format_date t ++ b'_' ∷ format_clock t)) log_suffix
      (All-append Slashless prefix (b'_' ∷ (format_date t ++ b'_' ∷ format_clock t)) h
        (omega arith, time))
      (omega arith)

-- In its directory, a log file has the name that is printed, if the prefix has no slash.
pub base-log_file_path :
    (prefix dir : Text) (t : Timestamp)
    → IsValid t
    → Lacks b'/' prefix
    → base (log_file_path prefix dir t) ≡ log_file_name prefix t
unfolding log_file_path
base-log_file_path prefix dir t v h =
    base-join_path dir (log_file_name prefix t) (log_file_name-Lacks prefix t v h)
      (unfold log_file_name in ends_in_suffix-IsElement _)
