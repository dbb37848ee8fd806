-- ===== src/EventLogger/Laws.antt =====
-- cmd/eventlogger/main.go: sequences of requests to the handler, with the mutex free and held.
use knative_benchmark.Prelude.{
  ◌≡◌, ◌≢◌, refl, sym, ap, ◌∙◌, Bool, ◌&&◌, true, false, List, [], ◌∷◌, ◌++◌, append_assoc,
  append-nil, map, Option, none, some, Result, ok, err, if◌then◌else◌, Text, codes, text_eq, All,
  arith, Bool-cases, inl, inr,
}
use knative_benchmark.EventLogger.{
  decoded, proceed, Logger, LogRequest, Reply, ok_200, method_not_allowed, bad_request,
  internal_error, handle, serve,
}

abbrev pub decodes : Result Text (Text × Text) → Bool
decodes (ok e) = true
decodes (err e) = false

-- A POST request whose body is an event.
abbrev pub is_event : LogRequest → Bool
is_event r = text_eq r.method (codes "POST") && decodes r.event

-- What a request is answered while the mutex is held: an event, nothing.
abbrev pub locked_reply : LogRequest → Option Reply
locked_reply r =
    if is_event r
    then none
    else some (if text_eq r.method (codes "POST") then bad_request else method_not_allowed)

-- The rows of the events of a sequence of requests.
abbrev event_row : Result Text (Text × Text) → List (List Text)
event_row (ok (id, time)) = (id ∷ time ∷ []) ∷ []
event_row (err e) = []

abbrev row_of : LogRequest → List (List Text)
row_of r = if text_eq r.method (codes "POST") then event_row r.event else []

abbrev pub event_rows : List LogRequest → List (List Text)
event_rows [] = []
event_rows (r ∷ rs) = row_of r ++ event_rows rs

abbrev pub Writes : LogRequest → Type 0
Writes r = r.write_fails ≡ false

some-ne-none : {A : Type 0} (a : A) → some a ≢ none
some-ne-none a = ground arith

if_some :
    (b : Bool) (l : Logger) (reply : Reply)
    → proceed l (if b then none else some (reply, l)) ≡ (if b then none else some reply, l)
if_some true l reply = refl
if_some false l reply = refl

abbrev free : List (List Text) → Logger
free rows = record { locked = false; rows = rows }

abbrev held : List (List Text) → Logger
held rows = record { locked = true; rows = rows }

decoded_fine :
    (event : Result Text (Text × Text)) (write_fails : Bool) (rows : List (List Text))
    → write_fails ≡ false
    → (reply : Reply) × (decoded event write_fails (free rows)
        ≡ some (reply, free (rows ++ event_row event)))
decoded_fine (err e) write_fails rows h = (bad_request, rw append-nil refl)
decoded_fine (ok (id, time)) true rows h = cc
decoded_fine (ok (id, time)) false rows h = (ok_200, refl)

handle_fine :
    (r : LogRequest) (rows : List (List Text))
    → r.write_fails ≡ false
    → (reply : Reply) × (handle r (free rows) ≡ some (reply, free (rows ++ row_of r)))
unfolding handle
handle_fine r rows h = elim (Bool-cases (text_eq r.method (codes "POST"))) [
  | inl post ↦ let (reply, e) = decoded_fine r.event r.write_fails rows h in (reply, simp post e)
  | inr other ↦ (method_not_allowed, simp (other, append-nil) refl)
]

-- As long as no write fails, every request gets a reply, the mutex is free at the end, and a row was
-- written for each event, in the order of the requests.
pub serve-rows :
    (rs : List LogRequest) (rows : List (List Text))
    → All Writes rs
    → ((serve rs (free rows)).1 ≡ free (rows ++ event_rows rs))
      × All (λ reply. reply ≢ none) (serve rs (free rows)).0
unfolding serve
serve-rows [] rows _ = (ap free (sym (append-nil rows)), tt)
serve-rows (r ∷ rs) rows (h, hs) =
    let (reply, e) = handle_fine r rows h in
    let (final, replies) = serve-rows rs (rows ++ row_of r) hs in
    rw e (
      final ∙ ap free (append_assoc rows (row_of r) (event_rows rs)),
      (some-ne-none reply, replies),
    )

decoded-held :
    (event : Result Text (Text × Text)) (write_fails : Bool) (rows : List (List Text))
    → decoded event write_fails (held rows)
      ≡ (if decodes event then none else some (bad_request, held rows))
decoded-held (err e) write_fails rows = refl
decoded-held (ok event) write_fails rows = refl

handle-held :
    (r : LogRequest) (rows : List (List Text))
    → proceed (held rows) (handle r (held rows)) ≡ (locked_reply r, held rows)
unfolding handle
handle-held r rows = elim (Bool-cases (text_eq r.method (codes "POST"))) [
  | inl post ↦ simp (post, decoded-held) (if_some (decodes r.event) (held rows) bad_request)
  | inr other ↦ simp other refl
]

-- While the mutex is held nothing is written.
serve-held :
    (rs : List LogRequest) (rows : List (List Text))
    → serve rs (held rows) ≡ (map locked_reply rs, held rows)
unfolding serve
serve-held [] rows = refl
serve-held (r ∷ rs) rows = rw (handle-held r rows, serve-held rs rows) refl

decoded_fails :
    (event : Result Text (Text × Text)) (write_fails : Bool) (rows : List (List Text))
    → decodes event ≡ true
    → write_fails ≡ true
    → decoded event write_fails (free rows) ≡ some (internal_error, held rows)
decoded_fails (err e) write_fails rows d h = cc
decoded_fails (ok (id, time)) true rows d h = refl
decoded_fails (ok (id, time)) false rows d h = cc

-- After one event whose write fails, whatever requests follow, no event gets a reply and no row is
-- written: the mutex is held for ever. Other requests are refused as before.
pub serve-deadlock :
    (r : LogRequest) (rs : List LogRequest) (rows : List (List Text))
    → text_eq r.method (codes "POST") ≡ true
    → decodes r.event ≡ true
    → r.write_fails ≡ true
    → serve (r ∷ rs) (record { locked = false; rows = rows })
      ≡ (some internal_error ∷ map locked_reply rs, record { locked = true; rows = rows })
unfolding serve handle
serve-deadlock r rs rows post event fails =
    simp (post, decoded_fails r.event r.write_fails rows event fails) (rw (serve-held rs rows) refl)
