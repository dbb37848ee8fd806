-- ===== src/Pool/Mock.antt =====
-- pkg/connection/pool.go, `poolMock`: a pool that counts the requests for each target. A target is
-- the address of its `Target`, here a number. The mutex makes the calls a sequence.
use knative_benchmark.Prelude.{ℕ, ◌+◌, ◌≡◌, refl, List, [], ◌∷◌, if◌then◌else◌, ◌==◌, arith}

abbrev pub Counts : Type 0
Counts = List (ℕ × ℕ)

-- p.targets[target], 0 for a missing key
unfoldable pub count_of : ℕ → Counts → ℕ
count_of t [] = 0
count_of t ((u, n) ∷ m) = if u == t then n else count_of t m

-- p.targets[target] = n
unfoldable pub set_count : ℕ → ℕ → Counts → Counts
set_count t n [] = (t, n) ∷ []
set_count t n ((u, k) ∷ m) = if u == t then (t, n) ∷ m else (u, k) ∷ set_count t n m

pub data Call : Type 0 where
  get post generate_cloud_event : ℕ → Call

abbrev pub target_of : Call → ℕ
target_of (get t) = t
target_of (post t) = t
target_of (generate_cloud_event t) = t

-- Each of the three methods increments the count of its target.
unfoldable pub handle : Call → Counts → Counts
unfolding count_of set_count
handle c m = set_count (target_of c) (count_of (target_of c) m + 1) m

unfoldable pub handle_all : List Call → Counts → Counts
unfolding handle
handle_all [] m = m
handle_all (c ∷ cs) m = handle_all cs (handle c m)

-- `NewPoolMock`
unfoldable pub new_pool_mock : List ℕ → Counts → Counts
unfolding set_count
new_pool_mock [] m = m
new_pool_mock (t ∷ ts) m = new_pool_mock ts (set_count t 0 m)

-- How many of the calls are for `t`.
pub calls_for : ℕ → List Call → ℕ
calls_for t [] = 0
calls_for t (c ∷ cs) = (if target_of c == t then 1 else 0) + calls_for t cs

count_of-set_count :
    (t u n : ℕ) (m : Counts) → count_of u (set_count t n m) ≡ (if t == u then n else count_of u m)
unfolding count_of set_count
count_of-set_count t u n [] = refl
count_of-set_count t u n ((v, k) ∷ m) = ground (arith, count_of-set_count t u n m)

count_of-handle :
    (u : ℕ) (c : Call) (m : Counts)
    → count_of u (handle c m) ≡ count_of u m + (if target_of c == u then 1 else 0)
unfolding handle
count_of-handle u c m =
    ground (arith, count_of-set_count (target_of c) u (count_of (target_of c) m + 1) m)

count_of-handle_all :
    (t : ℕ) (cs : List Call) (m : Counts)
    → count_of t (handle_all cs m) ≡ count_of t m + calls_for t cs
unfolding handle_all calls_for
count_of-handle_all t [] m = omega arith
count_of-handle_all t (c ∷ cs) m =
    omega (arith, count_of-handle_all t cs (handle c m), count_of-handle t c m)

count_of-new_pool_mock :
    (t : ℕ) (ts : List ℕ) (m : Counts) → count_of t m ≡ 0 → count_of t (new_pool_mock ts m) ≡ 0
unfolding new_pool_mock
count_of-new_pool_mock t [] m h = h
count_of-new_pool_mock t (u ∷ ts) m h =
    count_of-new_pool_mock t ts (set_count u 0 m) (ground (arith, count_of-set_count u t 0 m))

-- Of a new mock pool, after any sequence of calls of its three methods, the count of every target is
-- the number of the calls for it.
mock_counts_calls :
    (t : ℕ) (ts : List ℕ) (cs : List Call)
    → count_of t (handle_all cs (new_pool_mock ts [])) ≡ calls_for t cs
mock_counts_calls t ts cs = omega (
  arith,
  count_of-handle_all t cs (new_pool_mock ts []),
  count_of-new_pool_mock t ts [] (unfold count_of in refl),
)
