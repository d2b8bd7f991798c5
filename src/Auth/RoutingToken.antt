-- ===== src/Auth/RoutingToken.antt =====
-- Tokens that carry the organisation they belong to: `<organisation uuid>.<secret>`
-- (auth/refresh.py and services/invitation_service.py, `_extract_organisation_hint`).
use Prim.Native.Char.{code}
use Prim.Native.String.{◌++◌ as append}
use text.Mathlib.TextLemmas.{nil-append, cons-append}
use atlascore.Platform.{Uuid}
use atlascore.Base.{
  ℕ, String, Option, none, some, ◌≡◌, ◌≢◌, refl, arith, ◌==◌, if◌then◌else◌, str_eq, str_eq_iff,
  ◌∙◌, ap,
}

-- `raw.partition(".")`: the text before the first dot and the text behind it, `none` where there
-- is no dot.
unfoldable pub partition : String → Option (String × String)
partition String.[] = none
partition (String.◌∷◌ c s) =
    if code c == b'.'
    then some ("", s)
    else elim (partition s) [ none ↦ none | some (h, t) ↦ some (String.◌∷◌ c h, t) ]

-- What the documentation of `uuid` says: a printed UUID parses back, and has no dot.
pub record UuidLaws (u : Uuid) : Type 0 where
  pub parse-show : (n : ℕ) → u.parse (u.show n) ≡ some n
  pub no_dot : (n : ℕ) → partition (u.show n) ≡ none

module _ (u : Uuid) where
  unfoldable pub extract_organisation_hint : String → Option ℕ
  extract_organisation_hint raw = elim (partition raw) [
    | none ↦ none
    | some (hint, secret) ↦ if str_eq secret "" then none else u.parse hint
  ]

  -- f"{organisation_id}.{secret}"
  unfoldable pub routed : ℕ → String → String
  routed o secret = append (u.show o) (append "." secret)

append-dot : (t : String) → append "." t ≡ String.◌∷◌ "." t
append-dot t = cons-append "." "" t ∙ ap (λ r. String.◌∷◌ "." r) (nil-append t)

partition-append :
    (h t : String) → partition h ≡ none → partition (append h (append "." t)) ≡ some (h, t)
unfolding partition
partition-append String.[] t p = rw (nil-append, append-dot) refl
partition-append (String.◌∷◌ c h) t p = rw cons-append (ground (arith, partition-append h t))

module _ (u : Uuid) (laws : UuidLaws u) where
  -- Where printed UUIDs parse back and have no dot, a token with a secret that is not empty leads
  -- back to the organisation that it was made for.
  pub extract-routed :
      (o : ℕ) (secret : String)
      → secret ≢ ""
      → extract_organisation_hint u (routed u o secret) ≡ some o
  unfolding extract_organisation_hint routed
  extract-routed o secret h = ground (
    arith,
    partition-append (u.show o) secret (laws.no_dot o),
    str_eq_iff secret "",
    laws.parse-show o,
  )
