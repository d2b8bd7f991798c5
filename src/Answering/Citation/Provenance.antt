-- ===== src/Answering/Citation/Provenance.antt =====
-- Where the citations of an answer come from.
use Prim.Native.String.{◌++◌ as append}
use atlascore.Base.{
  ℕ, zero, suc, ◌≤◌, ◌<◌, ltb, lt→ltb, ◌≡◌, refl, ◌||◌, String, Bool, true, false, Option, none,
  some, List, [], ◌∷◌, Result, ok, err, Error, str_eq, str_eq_iff, str_eq_refl, ap, is_none,
  contains, if◌then◌else◌, not, arith, All, inl, inr, Bool-cases, Option-cases,
}
use atlascore.Platform.{Platform}
use atlascore.Db.Table.{Has, count}
use atlascore.Answering.Evidence.{EvidenceItem, EvidencePacket}
use atlascore.Answering.Citation.{
  Patterns, Citation, CitationValidator, evidence_map, cite, add_citation, cite_all, sorted_result,
  validate, make_excerpt, text_length, text_take,
}
use atlascore.Answering.Citation.Sorting.{
  AllOk, All-add, All-sort, IsSorted, sort-IsSorted, same_id, count_nil, count_cons, count-sort,
  IsFresh, add-IsFresh,
}

or_true : (b : Bool) → (b || true) ≡ true
or_true true = refl
or_true false = refl

module _ {Score : Type 0} where
  evidence_map-some :
      (items : List (EvidenceItem Score)) (raw_id : String) (item : EvidenceItem Score)
      → evidence_map items raw_id ≡ some item
      → Has item items × (str_eq item.evidence_id raw_id ≡ true)
  unfolding evidence_map
  evidence_map-some [] raw_id item h = absurd (ground (arith, h))
  evidence_map-some (i ∷ is) raw_id item h = ground (arith, evidence_map-some is raw_id item)

unknown_found :
    {Score : Type 0} (items : List (EvidenceItem Score)) (a b : String) (item : EvidenceItem Score)
    → evidence_map items a ≡ some item
    → evidence_map items b ≡ none
    → a ≡ b
    → ⊥
unknown_found items a b item found missing same =
    ground (arith, found, missing, ap (λ t. evidence_map items t) same)

-- The two guards of the loop, on one identifier.
guards_rule :
    {A : Type 0} (Q : Result (List Citation) → Type 0) (valid : Bool) (m : Option A)
    (f : A → Result (List Citation))
    → Q (err Error.citation_validation_error)
    → ((a : A) → m ≡ some a → Q (f a))
    → Q (
        if not valid
        then err Error.citation_validation_error
        else elim m [ none ↦ err Error.citation_validation_error | some a ↦ f a ])
guards_rule Q false m f fails goes = fails
guards_rule Q true none f fails goes = fails
guards_rule Q true (some a) f fails goes = goes a refl

-- The loop returns, with a citation for each of the identifiers that it had not seen.
abbrev Covers : List String → List String → Result (List Citation) → Type 0
Covers seen ids (err e) = ⊥
Covers seen ids (ok cs) =
    (id : String) → contains id ids ≡ true → contains id seen ≡ false → 1 ≤ count (same_id id) cs

-- The result is no error, and cites each of the identifiers once.
abbrev pub Cites : List String → Result (List Citation) → Type 0
Cites ids (err e) = ⊥
Cites ids (ok cs) = (id : String) → contains id ids ≡ true → count (same_id id) cs ≡ 1

covered :
    (re : Patterns) (ids : List String) (r : Result (List Citation))
    → Covers [] ids r
    → IsFresh [] r
    → Cites ids (sorted_result re r)
unfolding sorted_result
covered re ids (err e) h k = h
covered re ids (ok cs) h k = λ id asked.
    omega
      (arith, h id asked refl, (k id).0, count-sort (same_id id) re cs [], count_nil (same_id id))

module _ {Score : Type 0} (py : Platform) (re : Patterns) (self : CitationValidator)
    (items : List (EvidenceItem Score)) where
  cite_all-IsFresh : (seen ids : List String) → IsFresh seen (cite_all py re self items seen ids)
  unfolding cite_all cite
  cite_all-IsFresh seen [] =
      λ id. (omega (arith, count_nil (same_id id)), λ k. count_nil (same_id id))
  cite_all-IsFresh seen (raw_id ∷ ids) =
      guards_rule (IsFresh seen) (re.is_evidence_id raw_id) (evidence_map items raw_id) _ tt
        (λ item found.
          add-IsFresh seen (cite py re self raw_id item)
            (cite_all py re self items (raw_id ∷ seen) ids) (cite_all-IsFresh (raw_id ∷ seen) ids))

  -- `P` holds of every citation of one of the identifiers.
  cite_all-All :
      (P : Citation → Type 0) (seen ids : List String)
      → ((raw_id : String) (item : EvidenceItem Score)
          → contains raw_id ids ≡ true
          → evidence_map items raw_id ≡ some item
          → P (cite py re self raw_id item))
      → AllOk P (cite_all py re self items seen ids)
  unfolding cite_all
  cite_all-All P seen [] h = tt
  cite_all-All P seen (raw_id ∷ ids) h =
      guards_rule (AllOk P) (re.is_evidence_id raw_id) (evidence_map items raw_id) _ tt
        (λ item found.
          All-add P (contains raw_id seen) (cite py re self raw_id item)
            (cite_all py re self items (raw_id ∷ seen) ids)
            (h raw_id item (rw (str_eq_refl raw_id) refl) found)
            (cite_all-All P (raw_id ∷ seen) ids
              (λ other i k. h other i (rw k (or_true (str_eq raw_id other))))))

  -- An identifier that the evidence does not have makes the loop raise.
  cite_all-unknown :
      (seen ids : List String) (raw_id : String)
      → contains raw_id ids ≡ true
      → evidence_map items raw_id ≡ none
      → cite_all py re self items seen ids ≡ err Error.citation_validation_error
  unfolding cite_all add_citation
  cite_all-unknown seen [] raw_id h k = absurd (ground (arith, h))
  cite_all-unknown seen (other ∷ ids) raw_id h k =
      guards_rule (λ r. r ≡ err Error.citation_validation_error) (re.is_evidence_id other)
        (evidence_map items other) _ refl
        (λ item found. elim (Bool-cases (str_eq other raw_id)) [
          | inl same ↦
              absurd
                (unknown_found items other raw_id item found k ((str_eq_iff other raw_id).0 same))
          | inr apart ↦
              rw (cite_all-unknown (other ∷ seen) ids raw_id (ground (arith, h, apart)) k) refl
        ])

  add-Covers :
      (seen ids : List String) (raw_id : String) (c : Citation) (r : Result (List Citation))
      → c.citation_id ≡ raw_id
      → Covers (raw_id ∷ seen) ids r
      → Covers seen (raw_id ∷ ids) (add_citation (contains raw_id seen) c r)
  unfolding add_citation
  add-Covers seen ids raw_id c (err e) same h = h
  add-Covers seen ids raw_id c (ok cs) same h = elim (Bool-cases (contains raw_id seen)) [
    | inl s ↦ rw s (λ id asked unseen. elim (Bool-cases (str_eq raw_id id)) [
      | inl e ↦
          let again = ap (λ t. contains t seen) ((str_eq_iff raw_id id).0 e) in
          absurd (ground (arith, s, unseen, again))
      | inr e ↦ h id (ground (arith, asked, e)) (ground (arith, unseen, e))
    ])
    | inr s ↦ rw s (λ id asked unseen. elim (Bool-cases (str_eq raw_id id)) [
      | inl e ↦
          let here : same_id id c ≡ true = rw same e in
          ground (arith, here, count_cons (same_id id) c cs)
      | inr e ↦
          let later = h id (ground (arith, asked, e)) (ground (arith, unseen, e)) in
          ground (arith, later, count_cons (same_id id) c cs)
    ])
  ]

  cite_all-Covers :
      (seen ids : List String)
      → All (λ id. (re.is_evidence_id id ≡ true) × (is_none (evidence_map items id) ≡ false)) ids
      → Covers seen ids (cite_all py re self items seen ids)
  unfolding cite_all cite
  cite_all-Covers seen [] h = λ id asked unseen. absurd (ground (arith, asked))
  cite_all-Covers seen (raw_id ∷ ids) h = elim (Option-cases (evidence_map items raw_id)) [
    | inl none_here ↦ absurd (ground (arith, h.0.1, none_here))
    | inr (item, found) ↦ rw h.0.0 (
        rw found (
          add-Covers seen ids raw_id (cite py re self raw_id item)
            (cite_all py re self items (raw_id ∷ seen) ids) refl
            (cite_all-Covers (raw_id ∷ seen) ids h.1)))
  ]

-- An excerpt of a content: none of an empty one; the first characters of one that is longer than
-- the bound, stripped and marked as cut; and else all of it, stripped.
pub record IsExcerpt (py : Platform) (bound : ℕ) (content : String) (excerpt : Option String)
    : Type 0 where
  pub empty : content ≡ "" → excerpt ≡ none
  pub short :
      str_eq content "" ≡ false → text_length content ≤ bound → excerpt ≡ some (py.strip content)
  pub long :
      bound < text_length content → excerpt ≡ some (append (py.strip (text_take bound content)) "…")

take_all : (n : ℕ) (s : String) → text_length s ≤ n → text_take n s ≡ s
unfolding text_take text_length
take_all zero String.[] h = refl
take_all zero (String.◌∷◌ c s) h = absurd (omega (arith, h))
take_all (suc n) String.[] h = refl
take_all (suc n) (String.◌∷◌ c s) h = ap (λ t. String.◌∷◌ c t) (take_all n s (omega (arith, h)))

long_not_empty : (n : ℕ) (s : String) → n < text_length s → str_eq s "" ≡ false
unfolding text_length
long_not_empty n s h = elim (Bool-cases (str_eq s "")) [
  | inl e ↦ absurd (omega (arith, h, ap (λ t. text_length t) ((str_eq_iff s "").0 e)))
  | inr e ↦ e
]

make_excerpt-IsExcerpt :
    (py : Platform) (self : CitationValidator) (content : String)
    → IsExcerpt py self.max_excerpt_chars content (make_excerpt py self content)
unfolding make_excerpt
make_excerpt-IsExcerpt py self content = record {
  empty = λ e. rw e refl;
  short = λ e h.
      let kept : ltb self.max_excerpt_chars (text_length content) ≡ false = ground (arith, h) in
      rw (e, kept, take_all self.max_excerpt_chars content h) refl;
  long = λ h.
      rw
        (
          long_not_empty self.max_excerpt_chars content h,
          lt→ltb self.max_excerpt_chars (text_length content) h,
        )
        refl;
}

-- The citation is of an identifier that the provider returned, every field of it is that of the
-- item of the packet with this identifier, and its excerpt is one of the item's content.
pub record IsCited {Score : Type 0} (py : Platform) (re : Patterns) (self : CitationValidator)
    (items : List (EvidenceItem Score)) (ids : List String) (c : Citation) : Type 0 where
  pub item : EvidenceItem Score
  pub in_packet : Has item items
  pub same : str_eq item.evidence_id c.citation_id ≡ true
  pub asked : contains c.citation_id ids ≡ true
  pub source : c.source_id ≡ item.source_id
  pub document : c.document_id ≡ item.document_id
  pub version : c.document_version_id ≡ item.document_version_id
  pub chunk : c.chunk_id ≡ item.chunk_id
  pub name : c.source_name ≡ item.source_name
  pub title : c.document_title ≡ item.document_title
  pub number : c.version_number ≡ item.version_number
  pub index : c.chunk_index ≡ item.chunk_index
  pub excerpted : IsExcerpt py self.max_excerpt_chars item.content c.excerpt

module _ {Score : Type 0} (py : Platform) (re : Patterns) (self : CitationValidator) where
  -- what the citations of a valid answer satisfy
  abbrev pub IsResolved : List (EvidenceItem Score) → List String → Result (List Citation) → Type 0
  IsResolved items ids (err e) = Unit
  IsResolved items ids (ok cs) =
      All (IsCited py re self items ids) cs
      × IsSorted re cs
      × ((id : String) → count (same_id id) cs ≤ 1)

  resolved :
      (items : List (EvidenceItem Score)) (ids : List String) (r : Result (List Citation))
      → AllOk (IsCited py re self items ids) r
      → IsFresh [] r
      → IsResolved items ids (sorted_result re r)
  unfolding sorted_result
  resolved items ids (err e) h k = tt
  resolved items ids (ok cs) h k = (
    All-sort (IsCited py re self items ids) re cs [] h tt,
    sort-IsSorted re cs [] tt,
    λ id. omega (arith, (k id).0, count-sort (same_id id) re cs [], count_nil (same_id id)),
  )

  -- Provenance: whatever identifiers a provider returns, every citation of a validated answer is
  -- one of them and carries the source, the document, the version, the chunk, the names and an
  -- excerpt of the item of the packet with this identifier; no identifier is cited twice, and the
  -- citations are sorted by their number.
  pub validate-IsResolved :
      (ids : List String) (packet : EvidencePacket Score)
      → IsResolved packet.items ids (validate py re self ids packet)
  unfolding validate cite
  validate-IsResolved ids packet =
      resolved packet.items ids (cite_all py re self packet.items [] ids)
        (cite_all-All py re self packet.items (IsCited py re self packet.items ids) [] ids
          (λ raw_id item asked found. record {
            item = item;
            in_packet = (evidence_map-some packet.items raw_id item found).0;
            same = (evidence_map-some packet.items raw_id item found).1;
            asked = asked;
            source = refl;
            document = refl;
            version = refl;
            chunk = refl;
            name = refl;
            title = refl;
            number = refl;
            index = refl;
            excerpted = make_excerpt-IsExcerpt py self item.content;
          }))
        (cite_all-IsFresh py re self packet.items [] ids)

  -- An identifier that no item of the packet has makes the validation raise, whatever stands
  -- beside it.
  pub validate-unknown :
      (ids : List String) (packet : EvidencePacket Score) (raw_id : String)
      → contains raw_id ids ≡ true
      → evidence_map packet.items raw_id ≡ none
      → validate py re self ids packet ≡ err Error.citation_validation_error
  unfolding validate sorted_result
  validate-unknown ids packet raw_id asked missing =
      rw (cite_all-unknown py re self packet.items [] ids raw_id asked missing) refl

  -- Where every identifier has the form of one and is that of an item, the validation returns, and
  -- cites each of the identifiers exactly once.
  pub validate-known :
      (ids : List String) (packet : EvidencePacket Score)
      → All
          (λ id. (re.is_evidence_id id ≡ true) × (is_none (evidence_map packet.items id) ≡ false))
          ids
      → Cites ids (validate py re self ids packet)
  unfolding validate
  validate-known ids packet h =
      covered re ids (cite_all py re self packet.items [] ids)
        (cite_all-Covers py re self packet.items [] ids h)
        (cite_all-IsFresh py re self packet.items [] ids)
