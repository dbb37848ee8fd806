-- ===== src/Collector/Pods/Namespaces.antt =====
-- cmd/top/main.go, `collectPodMetrics`: which namespaces are collected, and how often.
use knative_benchmark.Prelude.{ℕ, ◌+◌, List, [], ◌∷◌, if◌then◌else◌, Text, text_eq}

-- How often a name stands in a list.
abbrev pub occurrences : Text → List Text → ℕ
occurrences x [] = 0
occurrences x (y ∷ ys) = (if text_eq y x then 1 else 0) + occurrences x ys
