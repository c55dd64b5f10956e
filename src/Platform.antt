-- ===== src/Platform.antt =====
-- What the program takes from Node.js: SHA-256 of a text (node:crypto) and `JSON.parse`.
use domain_eval_weave.Base.{String, true, Option, ◌≡◌}
use domain_eval_weave.Base.Result.{Result, ok, ◌>>=◌}
use domain_eval_weave.Json.{JsonValue, canonical_json}
use domain_eval_weave.Capsule.Schema.Patterns.{sha256_matches}

pub record Platform : Type 0 where
  -- `createHash("sha256").update(text).digest("hex")`
  pub sha256_hex : String → String
  -- `JSON.parse`, with `none` where it throws
  pub parse_json : String → Option JsonValue

-- A digest is 64 lower-case hexadecimal digits, as node:crypto documents.
pub record IsHexDigest (p : Platform) : Type 0 where
  pub hex : (s : String) → sha256_matches (p.sha256_hex s) ≡ true

-- `canonicalJsonDigest`
unfoldable pub canonical_json_digest : Platform → JsonValue → Result String
canonical_json_digest p value = do text ← canonical_json value; ok (p.sha256_hex text)
