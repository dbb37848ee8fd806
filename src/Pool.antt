-- ===== src/Pool.antt =====
-- pkg/connection/pool.go: the HTTP requests that a pool sends, and what it measures of them.
pub mod Headers
pub mod Trace
pub mod Laws
pub mod Tests
pub mod Mock
use knative_benchmark.Prelude.{
  ℕ, Bool, true, false, List, [], ◌∷◌, Option, none, some, Result, ok, err, ◌>>=◌, if◌then◌else◌,
  Text, codes, Dict, lookup, is_empty,
}
use knative_benchmark.Config.{Target}
use Headers.{set_header, set_headers}
use Trace.{Exchange, ResponseMetrics, execute_with_metrics}

pub record Request : Type 0 where
  pub method : Text
  pub url : Text
  pub host : Text
  pub header : Dict Text
  pub body : Text

abbrev pub content_type : Text
content_type = codes "Content-Type"

abbrev pub json : Text
json = codes "application/json"

-- The Host header, if the target has one, replaces the host of the URL.
abbrev pub host_of : Target → Text → Text
host_of t host = if is_empty t.host_header then host else t.host_header

unfoldable pub default_type : Option Text → Dict Text → Dict Text
default_type (some v) header = header
default_type none header = set_header content_type json header

-- `url_host` is what `http.NewRequest` makes of a URL: its host, or an error.
module _ {E : Type 0} (url_host : Text → Result E Text) where
  unfoldable pub get_request : Target → Result E Request
  unfolding set_headers
  get_request t = do
    host ← url_host t.url
    ok (record {
      method = codes "GET";
      url = t.url;
      host = host_of t host;
      header = set_headers t.headers [];
      body = [];
    })

  -- The test for a content type looks the key up as it is spelled in the configuration.
  unfoldable pub post_request : Target → Text → Result E Request
  unfolding set_headers default_type
  post_request t body = do
    host ← url_host t.url
    ok (record {
      method = codes "POST";
      url = t.url;
      host = host_of t host;
      header = default_type (lookup content_type t.headers) (set_headers t.headers []);
      body = body;
    })

  -- `send` is the HTTP client, and `start` the clock when it is called.
  unfoldable pub get : (Request → Exchange E) → ℕ → Target → Result E ResponseMetrics
  unfolding get_request
  get send start t = get_request t >>= λ req. execute_with_metrics start (send req)

  unfoldable pub post : (Request → Exchange E) → ℕ → Target → Text → Result E ResponseMetrics
  unfolding post_request
  post send start t body = post_request t body >>= λ req. execute_with_metrics start (send req)

-- `encode` is the package that makes an HTTP request of an event for a URL.
unfoldable pub generate_cloud_event :
    {E Event : Type 0}
    → (Text → Event → Result E Request)
    → (Request → Exchange E)
    → ℕ
    → Target
    → Event
    → Result E ResponseMetrics
generate_cloud_event encode send start t event =
    encode t.url event >>= λ req. execute_with_metrics start (send req)
