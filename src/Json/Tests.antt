-- ===== src/Json/Tests.antt =====
-- Runs of the canonical serialiser.
use domain_eval_weave.Base.{◌≡◌, refl, template, decimal, join, text_leb}
use domain_eval_weave.Json.Quote.{quote}
use domain_eval_weave.Base.Result.{ok, err, canonical_json_error}
use domain_eval_weave.Json.{
  JsonValue, null, num, str, obj, arr, negative_zero, non_finite, nil, cons, end, field,
  canonical_json,
}

abbrev sample : JsonValue
sample =
    obj (
      field "b" (arr (cons (num negative_zero) (cons (str "a\"\n\u{1}") nil))) (field "a" null end))

canonical_sample : canonical_json sample ≡ ok "{\"a\":null,\"b\":[0,\"a\\\"\\n\\u0001\"]}"
unfolding canonical_json text_leb template join quote
canonical_sample = refl

canonical_infinite :
    canonical_json (obj (field "x" (arr (cons (num non_finite) nil)) end))
    ≡ err (canonical_json_error "non-finite number at $.x[0]")
unfolding canonical_json template decimal
canonical_infinite = refl
