-- ===== src/Receiver/Tests.antt =====
-- Events for the receiver of cmd/reciever/main.go; an event is its id here.
use knative_benchmark.Prelude.{
  ◌≡◌, refl, true, false, [], ◌∷◌, some, Result, ok, err, Text, codes, ◌++◌, List,
}
use knative_benchmark.Receiver.{unreachable, reached, receive, receive_all}
use knative_benchmark.Receiver.Laws.{receive-acknowledges, receive_all-rows, rows_of}

abbrev marshal : Text → Result Text Text
marshal id = ok id

abbrev decode : Text → Result Text (Text × Text)
decode body = ok (body, codes "now")

abbrev seven : Text
seven = codes "7"

receive-acknowledges_example :
    (receive marshal decode (reached false) seven (record { locked = false; rows = [] })
      ≡ some (ok tt, record { locked = false; rows = [] ++ (seven ∷ codes "now" ∷ []) ∷ [] }))
    × (receive marshal decode (reached true) seven (record { locked = false; rows = [] })
        ≡ some (ok tt, record { locked = true; rows = [] }))
    × (receive marshal decode
          (unreachable (codes "refused"))
          seven
          (record { locked = false; rows = [] })
        ≡ some (err (codes "refused"), record { locked = false; rows = [] }))
receive-acknowledges_example =
    receive-acknowledges marshal decode seven seven (seven, codes "now") [] (codes "refused") refl
      refl

abbrev row_of : Text → Text × Text
row_of id = (id, codes "now")

abbrev two_events : List Text
two_events = seven ∷ codes "8" ∷ []

receive_all-rows_example :
    receive_all marshal decode two_events (record { locked = false; rows = [] })
    ≡ some (record { locked = false; rows = [] ++ rows_of row_of two_events })
receive_all-rows_example =
    receive_all-rows marshal decode row_of two_events []
      ((seven, refl, refl), ((codes "8", refl, refl), tt))
