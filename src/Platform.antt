-- ===== src/Platform.antt =====
-- What the services take from Python's standard library and do not implement: UUID texts, hash
-- functions, and the case and white space of Unicode texts. Their laws are hypotheses of the
-- theorems that need them.
use atlascore.Base.{ℕ, ◌*◌, String, Option, List}

-- `uuid`
pub record Uuid : Type 0 where
  -- `str(u)`
  pub show : ℕ → String
  -- `uuid.UUID(s)`, with `none` for the ValueError
  pub parse : String → Option ℕ

pub record Platform : Type 0 where
  pub uuid : Uuid
  -- `hashlib.blake2b(digest_size=32)` and `hashlib.sha256`, updated once, as a hex digest
  pub blake2b : String → String
  pub sha256 : String → String
  -- `hashlib.blake2b(data, key=key[:64], digest_size=32)`: the key first
  pub keyed_blake2b : String → String → String
  -- `str.lower` and `str.strip`
  pub lower : String → String
  pub strip : String → String
  -- `str.split()`
  pub split : String → List String

-- A time and a span of time are in microseconds.
abbrev pub minute : ℕ
minute = 60000000

abbrev pub hour : ℕ
hour = 60 * minute

abbrev pub day : ℕ
day = 24 * hour
