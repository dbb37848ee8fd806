-- ===== src/Receiver/Laws.antt =====
-- cmd/reciever/main.go with cmd/eventlogger/main.go: which events are acknowledged and which are
-- logged.
use knative_benchmark.Prelude.{
  ◌≡◌, refl, ap, ◌∙◌, true, false, List, [], ◌∷◌, ◌++◌, append_assoc, append-nil, map, some, Result,
  ok, err, Text, All,
}
use knative_benchmark.EventLogger.{handle}
use knative_benchmark.Receiver.{unreachable, reached, receive, receive_all}

-- The rows of a sequence of events.
abbrev pub rows_of : {Event : Type 0} → (Event → Text × Text) → List Event → List (List Text)
rows_of row_of = map (λ e. (row_of e).0 ∷ (row_of e).1 ∷ [])

module _ {E Event : Type 0} (marshal : Event → Result E Text)
    (decode : Text → Result Text (Text × Text)) where
  -- An event that the event logger decodes to `row` is acknowledged when the event logger is
  -- reached with its mutex free, whether the row is written or not: without a failure the row is
  -- written, and after a failure no row is, and the mutex is held. If the event logger is not
  -- reached, the error is returned, and nothing has changed there.
  pub receive-acknowledges :
      (e : Event) (body : Text) (row : Text × Text) (rows : List (List Text)) (lost : E)
      → marshal e ≡ ok body
      → decode body ≡ ok row
      → (receive marshal decode (reached false) e (record { locked = false; rows = rows })
          ≡ some (ok tt, record { locked = false; rows = rows ++ (row.0 ∷ row.1 ∷ []) ∷ [] }))
        × (receive marshal decode (reached true) e (record { locked = false; rows = rows })
            ≡ some (ok tt, record { locked = true; rows = rows }))
        × (receive marshal decode (unreachable lost) e (record { locked = false; rows = rows })
            ≡ some (err lost, record { locked = false; rows = rows }))
  unfolding receive handle
  receive-acknowledges e body (id, time) rows lost marshals decodes =
      (rw (marshals, decodes) refl, rw (marshals, decodes) refl, rw marshals refl)

  -- The event is encoded, and decoded to these two texts.
  abbrev pub IsLogged : (Event → Text × Text) → Event → Type 0
  IsLogged row_of e = (body : Text) × (marshal e ≡ ok body) × (decode body ≡ ok (row_of e))

  -- As long as every call reaches the event logger, with its mutex free at the start, and no
  -- write fails, of a sequence of events that it decodes each gets its row, in their order, and
  -- the mutex is free at the end.
  pub receive_all-rows :
      (row_of : Event → Text × Text) (es : List Event) (rows : List (List Text))
      → All (IsLogged row_of) es
      → receive_all marshal decode es (record { locked = false; rows = rows })
        ≡ some (record { locked = false; rows = rows ++ rows_of row_of es })
  unfolding receive_all receive handle
  receive_all-rows row_of [] rows _ = rw append-nil
  receive_all-rows row_of (e ∷ es) rows ((body, marshals, decodes), hs) =
      rw (marshals, decodes)
        (receive_all-rows row_of es _ hs
          ∙ ap (λ r. some (record { locked = false; rows = r }))
              (append_assoc rows (((row_of e).0 ∷ (row_of e).1 ∷ []) ∷ []) (rows_of row_of es)))
