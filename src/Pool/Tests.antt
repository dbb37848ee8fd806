-- ===== src/Pool/Tests.antt =====
-- Requests, headers and times of the pool of pkg/connection/pool.go.
use knative_benchmark.Prelude.{
  ℕ, ◌≡◌, refl, false, List, [], ◌∷◌, some, Result, ok, Text, codes, lookup, pos, arith, inl, ◌⊎◌,
}
use knative_benchmark.Config.{Target}
use knative_benchmark.Pool.{Request, content_type, json, get_request, post_request}
use knative_benchmark.Pool.Headers.{canonical, set_header, set_headers, is_token}
use knative_benchmark.Pool.Headers.Laws.{HasDistinctKeys}
use knative_benchmark.Pool.Laws.{get_request-headers, post_request-content_type}
use knative_benchmark.Pool.Mock.{Call, get, post}
use knative_benchmark.Pool.Trace.{
  dns_start, dns_done, first_byte, no_timing, ResponseMetrics, Exchange, execute_with_metrics,
}
use knative_benchmark.Pool.Trace.Order.{IsOrdered, not_begun}
use knative_benchmark.Pool.Trace.Laws.{IsWithin, execute_with_metrics-IsWithin}

abbrev url_host : Text → Result ℕ Text
url_host url = ok (codes "h")

abbrev target : Target
target = record {
  url = codes "http://h/x";
  headers = (codes "x-a", codes "1") ∷ (codes "content-type", codes "text") ∷ [];
  weight = pos 1;
  host_header = codes "f";
  body = [];
}

abbrev get_sent : Request
get_sent = record {
  method = codes "GET";
  url = codes "http://h/x";
  host = codes "f";
  header = set_headers target.headers [];
  body = [];
}

sends : get_request url_host target ≡ ok get_sent
unfolding get_request
sends = refl

abbrev post_sent : Request
post_sent = record get_sent {
  method = codes "POST";
  header = set_header content_type json (set_headers target.headers []);
}

posts : post_request url_host target [] ≡ ok post_sent
unfolding post_request
posts = refl

distinct : HasDistinctKeys target.headers
unfolding canonical is_token
distinct = ((ground arith, tt), (tt, tt))

get_request-headers_example :
    (lookup (canonical (codes "x-a")) get_sent.header ≡ some (codes "1"))
    × (get_sent.url ≡ target.url)
    × ((target.host_header ≡ []) ⊎ (get_sent.host ≡ target.host_header))
get_request-headers_example =
    get_request-headers url_host target get_sent (codes "x-a") (codes "1") distinct
      (inl (refl, refl)) sends

post_request-content_type_example : lookup content_type post_sent.header ≡ some json
post_request-content_type_example =
    post_request-content_type url_host target post_sent [] distinct posts

abbrev calls : List Call
calls = get 1 ∷ post 2 ∷ get 1 ∷ []

abbrev exchange : Exchange ℕ
exchange = record {
  events = dns_start 11 ∷ dns_done 14 ∷ first_byte 18 ∷ [];
  result = ok (record { status = 200; body = []; read_fails = false });
  stop = 20;
}

abbrev measured : ResponseMetrics
measured = record {
  response = record { status = 200; body = []; read_fails = false };
  timing = record no_timing { dns_start = some 11; dns_time = 3; ttfb = 8 };
  total = 10;
}

measures : execute_with_metrics 10 exchange ≡ ok measured
unfolding execute_with_metrics
measures = refl

ordered : IsOrdered 10 not_begun exchange.events exchange.stop
ordered = (tt, omega arith, (refl, omega arith, (tt, omega arith, omega arith)))

execute_with_metrics-IsWithin_example : IsWithin measured.total measured.timing
execute_with_metrics-IsWithin_example =
    execute_with_metrics-IsWithin 10 exchange measured ordered measures
