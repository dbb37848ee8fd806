-- ===== src/Pool/Laws.antt =====
-- pkg/connection/pool.go: the headers of the requests of `Get` and `Post`.
use mathlib.Core.Option
use knative_benchmark.Prelude.{
  ok_injective, Bool-cases, >>=-eq-ok, text_eq, text_eq_iff, ◌≡◌, refl, [], ◌∷◌, Option, none, some,
  Result, ok, if◌then◌else◌, Text, Dict, lookup, is_empty, lookup-insert, arith, inl, inr, ◌⊎◌,
}
use knative_benchmark.Config.{Target}
use knative_benchmark.Pool.Headers.{is_token, canonical, set_header, set_headers}
use knative_benchmark.Pool.Headers.Laws.{HasDistinctKeys, Holds, lookup-set_headers}
use knative_benchmark.Pool.{Request, content_type, json, default_type, get_request, post_request}

canonical-content_type : canonical content_type ≡ content_type
unfolding canonical is_token
canonical-content_type = refl

own_host : (own host : Text) → (own ≡ []) ⊎ ((if is_empty own then host else own) ≡ own)
own_host [] host = inl refl
own_host (c ∷ own) host = inr refl

pub lookup-Holds : (k v : Text) (m : Dict Text) → lookup k m ≡ some v → Holds k v m
lookup-Holds k v [] h = cc
lookup-Holds k v ((j, w) ∷ m) h = elim (Bool-cases (text_eq j k)) [
  | inl same ↦ inl ((text_eq_iff j k).0 same, ground arith)
  | inr other ↦ inr (lookup-Holds k v m (rw other at h))
]

default_type_lem :
    (t : Target) (o : Option Text)
    → HasDistinctKeys t.headers
    → lookup content_type t.headers ≡ o
    → lookup content_type (default_type o (set_headers t.headers [])) ≡ some (Option.get_or o json)
unfolding default_type set_header
default_type_lem t (some v) distinct e =
    let found =
      lookup-set_headers content_type v t.headers [] distinct
        (lookup-Holds content_type v t.headers e) in
    rw canonical-content_type at found
default_type_lem t none distinct e = rw canonical-content_type (rw lookup-insert)

module _ {E : Type 0} (url_host : Text → Result E Text) (t : Target) (req : Request) where
  -- Every header of the configuration stands in a GET request under its canonical key, in whatever
  -- order the map is read, if no two configured keys differ only in case; the request is for the
  -- target's URL; and the Host header is the target's, unless that is empty.
  pub get_request-headers :
      (k v : Text)
      → HasDistinctKeys t.headers
      → Holds k v t.headers
      → get_request url_host t ≡ ok req
      → (lookup (canonical k) req.header ≡ some v)
        × (req.url ≡ t.url)
        × ((t.host_header ≡ []) ⊎ (req.host ≡ t.host_header))
  unfolding get_request
  get_request-headers k v distinct held e =
      let (host, found, same) = >>=-eq-ok (url_host t.url) _ e in
      rw (← ok_injective same)
        (lookup-set_headers k v t.headers [] distinct held, refl, own_host t.host_header host)

  -- The content type of a POST request is the one configured under the key spelled exactly
  -- `Content-Type`, and JSON if there is no such key, also where another spelling of it is
  -- configured; no two configured keys may differ only in case.
  pub post_request-content_type :
      (body : Text)
      → HasDistinctKeys t.headers
      → post_request url_host t body ≡ ok req
      → lookup content_type req.header ≡ some (Option.get_or (lookup content_type t.headers) json)
  unfolding post_request
  post_request-content_type body distinct e =
      let (host, found, same) = >>=-eq-ok (url_host t.url) _ e in
      rw (← ok_injective same) (default_type_lem t (lookup content_type t.headers) distinct refl)
