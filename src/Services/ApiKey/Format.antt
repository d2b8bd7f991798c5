-- ===== src/Services/ApiKey/Format.antt =====
-- services/service_account_service.py: the text of an API key, and the way back to the organisation
-- and the prefix in it (`_generate_api_key`, `_extract_org_and_prefix`).
use Prim.Native.Char.{code}
use Prim.Native.String.{◌++◌ as append}
use text.Mathlib.TextLemmas.{nil-append, cons-append}
use atlascore.Platform.{Uuid}
use atlascore.Base.{
  ℕ, zero, suc, String, Option, none, some, List, [], ◌∷◌, ◌≡◌, refl, arith, ◌==◌, if◌then◌else◌,
  str_eq, ◌∙◌, ap,
}

-- the text before the first underscore and the text behind it
unfoldable pub cut : String → Option (String × String)
cut String.[] = none
cut (String.◌∷◌ c s) =
    if code c == b'_'
    then some ("", s)
    else elim (cut s) [ none ↦ none | some (h, t) ↦ some (String.◌∷◌ c h, t) ]

-- `raw.split("_", n)`
unfoldable pub split_underscore : ℕ → String → List String
split_underscore zero s = s ∷ []
split_underscore (suc n) s = elim (cut s) [ none ↦ s ∷ [] | some (h, t) ↦ h ∷ split_underscore n t ]

module _ (u : Uuid) where
  unfoldable pub from_parts : List String → Option (ℕ × String)
  from_parts (scheme ∷ organisation ∷ prefix ∷ secret ∷ []) =
      if str_eq scheme "atk"
      then elim (u.parse organisation) [ none ↦ none | some o ↦ some (o, prefix) ]
      else none
  from_parts _ = none

  unfoldable pub extract_org_and_prefix : String → Option (ℕ × String)
  unfolding from_parts split_underscore
  extract_org_and_prefix raw_key = from_parts (split_underscore 3 raw_key)

  -- f"atk_{organisation_id}_{key_prefix}_{secret}"
  unfoldable pub key_text : ℕ → String → String → String
  key_text organisation_id key_prefix secret = append "atk" (
      append "_"
        (append (u.show organisation_id) (append "_" (append key_prefix (append "_" secret)))))

append-underscore : (t : String) → append "_" t ≡ String.◌∷◌ "_" t
append-underscore t = cons-append "_" "" t ∙ ap (λ r. String.◌∷◌ "_" r) (nil-append t)

cut-append : (h t : String) → cut h ≡ none → cut (append h (append "_" t)) ≡ some (h, t)
unfolding cut
cut-append String.[] t p = rw (nil-append, append-underscore) refl
cut-append (String.◌∷◌ c h) t p = rw cons-append (ground (arith, cut-append h t))

split-append :
    (n : ℕ) (h t : String)
    → cut h ≡ none
    → split_underscore (suc n) (append h (append "_" t)) ≡ h ∷ split_underscore n t
unfolding split_underscore
split-append n h t p =
    ap
      (λ c. elim c [ none ↦ append h (append "_" t) ∷ [] | some (a, b) ↦ a ∷ split_underscore n b ])
      (cut-append h t p)

-- What the documentation of `uuid` says: a printed UUID parses back, and has no underscore.
pub record UuidLaws (u : Uuid) : Type 0 where
  pub parse-show : (n : ℕ) → u.parse (u.show n) ≡ some n
  pub no_underscore : (n : ℕ) → cut (u.show n) ≡ none

module _ (u : Uuid) (laws : UuidLaws u) where
  split-key_text :
      (o : ℕ) (prefix secret : String)
      → cut prefix ≡ none
      → split_underscore 3 (key_text u o prefix secret) ≡ "atk" ∷ u.show o ∷ prefix ∷ secret ∷ []
  unfolding key_text split_underscore cut
  split-key_text o prefix secret p =
      split-append 2 "atk" (append (u.show o) (append "_" (append prefix (append "_" secret)))) refl
      ∙ ap (λ l. "atk" ∷ l)
          (split-append 1 (u.show o) (append prefix (append "_" secret)) (laws.no_underscore o)
            ∙ ap (λ l. u.show o ∷ l) (split-append 0 prefix secret p))

  -- Where printed UUIDs parse back and have no underscore, a key whose prefix has no underscore
  -- leads back to its organisation and its prefix, whatever its secret holds.
  pub extract-key_text :
      (o : ℕ) (prefix secret : String)
      → cut prefix ≡ none
      → extract_org_and_prefix u (key_text u o prefix secret) ≡ some (o, prefix)
  unfolding extract_org_and_prefix from_parts
  extract-key_text o prefix secret p =
      rw (split-key_text o prefix secret p) (rw (laws.parse-show o) refl)
