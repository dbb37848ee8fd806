-- ===== src/LogParser/Database/Laws.antt =====
-- cmd/logparser/main.go: `insertRequests` when calls of the driver fail.
use knative_benchmark.Prelude.{
  ℕ, suc, ◌≡◌, refl, sym, ap, ◌∙◌, true, false, ◌||◌, List, [], ◌∷◌, ◌++◌, append_assoc, append-nil,
  map, none, some, Text, Bool-cases, inl, inr, ◌⊎◌,
}
use knative_benchmark.LogParser.Request.{RequestInfo}
use knative_benchmark.LogParser.Database.{
  Database, Faults, RequestRow, request_row, exec_all, insert_requests,
}

module _ {T : Type 0} (format_time : T → Text) (faults : Faults) (experiment_id : ℕ) where
  -- The loop fails, or appends a row for each request.
  exec_all-eq :
      (i : ℕ) (reqs : List (RequestInfo T)) (table : List RequestRow)
      → (exec_all format_time faults i experiment_id reqs table ≡ none)
        ⊎ (exec_all format_time faults i experiment_id reqs table
            ≡ some (table ++ map (request_row format_time experiment_id) reqs))
  unfolding exec_all
  exec_all-eq i [] table = inr (ap some (sym (append-nil table)))
  exec_all-eq i (req ∷ reqs) table = elim (Bool-cases (faults.exec i)) [
    | inl fails ↦ inl (rw fails refl)
    | inr fine ↦
        elim (exec_all-eq (suc i) reqs (table ++ request_row format_time experiment_id req ∷ [])) [
          | inl e ↦ inl (rw fine e)
          | inr e ↦ inr (
              rw fine (
                e
                ∙ ap some (
                    append_assoc table (request_row format_time experiment_id req ∷ [])
                      (map (request_row format_time experiment_id) reqs))))
        ]
  ]

  -- Whatever calls of the driver fail, `insertRequests` returns no error and has appended a row for
  -- each request, in order, or it returns an error and has changed nothing.
  pub insert_requests_atomic :
      (reqs : List (RequestInfo T)) (db : Database)
      → (insert_requests format_time faults experiment_id reqs db ≡ (
        true,
        record db { requests = db.requests ++ map (request_row format_time experiment_id) reqs },
      ))
        ⊎ (insert_requests format_time faults experiment_id reqs db ≡ (false, db))
  unfolding insert_requests
  insert_requests_atomic reqs db = elim (Bool-cases (faults.begin || faults.prepare)) [
    | inl fails ↦ inr (rw fails refl)
    | inr fine ↦ elim (exec_all-eq 0 reqs db.requests) [
      | inl e ↦ inr (rw (fine, e) refl)
      | inr e ↦ elim (Bool-cases faults.commit) [
        | inl fails ↦ inr (rw (fine, e, fails) refl)
        | inr commits ↦ inl (rw (fine, e, commits) refl)
      ]
    ]
  ]
