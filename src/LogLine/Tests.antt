-- ===== src/LogLine/Tests.antt =====
-- A line that pkg/generator/generator.go writes, read by cmd/logparser/main.go. A duration is printed
-- as its number of nanoseconds.
use knative_benchmark.Prelude.{
  ◌≡◌, refl, false, [], ◌∷◌, Option, none, some, Text, codes, map, ℤ, arith, Result, ok, err,
}
use knative_benchmark.Decimal.{decimal, atoi}
use knative_benchmark.Decimal.Laws.{atoi-decimal}
use knative_benchmark.Pool.Trace.{ResponseMetrics, no_timing}
use knative_benchmark.LogParser.Process.{Services, requests_of}
use knative_benchmark.LogLine.{success_line}
use knative_benchmark.LogLine.Values.{in_quotes, bare, decimal-IsPlain}
use knative_benchmark.LogLine.Rows.{Success, IsSound, row_of, PrintsDurations}
use knative_benchmark.LogLine.Laws.{requests_of-success_line}

abbrev int_or_none : {E : Type 0} → Result E ℤ → Option ℤ
int_or_none (ok n) = some n
int_or_none (err e) = none

abbrev services : Services Text
services = record {
  parse_time = λ s. some s;
  zero_time = [];
  format_time = λ t. t;
  parse_duration = λ s. int_or_none (atoi s);
  new_id = λ db. 1;
}

prints : PrintsDurations services.parse_duration decimal
prints = record {
  print_IsPlain = λ d h. decimal-IsPlain d;
  print_parses = λ d h. rw (atoi-decimal d h) refl;
}

abbrev metrics : Text → ResponseMetrics
metrics body = record {
  response = record { status = 200; body = body; read_fails = false };
  timing = record no_timing { ttfb = 2000000 };
  total = 3000000;
}

-- A cold start, with a URL that is quoted.
abbrev cold : Success
cold = record {
  sent = record {
    time = codes "2024-02-29T12:00:05.000Z";
    url = codes "http://f?a=b";
    id = some (codes "7");
    metrics = metrics (codes "\"true\"");
  };
  body = in_quotes (codes "true");
}

abbrev warm : Success
warm = record {
  sent = record {
    time = codes "2024-02-29T12:00:06.000Z";
    url = codes "http://g";
    id = none;
    metrics = metrics (codes "false");
  };
  body = bare (codes "false");
}

cold_line :
    success_line decimal cold.sent
    ≡ codes
        "time=2024-02-29T12:00:05.000Z level=INFO msg=Success target=\"http://f?a=b\" id=7 TTFB=2000000 Total=3000000 isCold=\"\\\"true\\\"\" status=200 DNS=0 Connect=0 TLS=0"
unfolding success_line decimal
cold_line = refl

warm-IsSound : IsSound warm
warm-IsSound = record {
  time_IsPlain = (ground arith, ground arith);
  url_IsText = ground arith;
  id_IsId = tt;
  same_body = refl;
  body_IsText = ground arith;
  status_fits = omega arith;
  durations_fit = (omega arith, omega arith, omega arith, omega arith, omega arith);
}

cold-IsSound : IsSound cold
cold-IsSound = record {
  time_IsPlain = (ground arith, ground arith);
  url_IsText = ground arith;
  id_IsId = ground arith;
  same_body = refl;
  body_IsText = ground arith;
  status_fits = omega arith;
  durations_fit = (omega arith, omega arith, omega arith, omega arith, omega arith);
}

requests_of-success_line_example :
    requests_of services (map (λ e. success_line decimal e.sent) (cold ∷ warm ∷ []))
    ≡ map (row_of services) (cold ∷ warm ∷ [])
requests_of-success_line_example =
    requests_of-success_line services decimal prints (cold ∷ warm ∷ [])
      (cold-IsSound, (warm-IsSound, tt))
