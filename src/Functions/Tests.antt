-- ===== src/Functions/Tests.antt =====
-- Runs of the Go handlers under functions/.
use knative_benchmark.Prelude.{◌≡◌, refl, Text, codes, Result, ok, arith}
use knative_benchmark.Decimal.{NumError, decimal}
use knative_benchmark.Functions.Laws.{text_plain, Holds, handle_chain, handle_chain_lem}

-- An event of these runs is its content type and its data.
abbrev content_type_of : Text × Text → Text
content_type_of e = e.0

abbrev data_of : Text × Text → Text
data_of e = e.1

abbrev set_data : Text → Text → Text × Text → Result NumError (Text × Text)
set_data content_type s e = ok (content_type, s)

nine : codes "9" ≡ decimal 9
unfolding decimal
nine = refl

abbrev event : Text × Text
event = (text_plain, codes "9")

handle_chain_lem_example :
    (e : Text × Text) × (handle_chain content_type_of data_of set_data 3 event ≡ ok e)
    × Holds content_type_of data_of 12 e
handle_chain_lem_example =
    handle_chain_lem content_type_of data_of set_data 3 9 event
      (λ s e. ((text_plain, s), refl, refl, refl)) (omega arith) (refl, nine)
