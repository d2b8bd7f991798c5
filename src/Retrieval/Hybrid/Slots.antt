-- ===== src/Retrieval/Hybrid/Slots.antt =====
-- The slots of a fusion (retrieval/hybrid.py): what a change of one slot gives, and that no two are
-- one chunk's.
use atlascore.Base.{
  ℕ, suc, ◌==◌, ◌≡◌, refl, sym, Bool, true, false, List, [], ◌∷◌, arith, All, All-map, inl, inr,
  Bool-cases, if◌then◌else◌,
}
use atlascore.Platform.{Platform}
use atlascore.Retrieval.Hybrid.{
  Floats, FusionSlot, LexicalCandidate, VectorCandidate, touch, lexical_slot, vector_slot,
  lexical_hit, vector_hit, add_lexical, add_vector,
}

pub All-both {ℓ} :
    {A : Type ℓ} (P Q : A → Type 0) (xs : List A) → All P xs → All Q xs → All (λ a. P a × Q a) xs
All-both P Q [] h k = tt
All-both P Q (x ∷ xs) h k = ((h.0, k.0), All-both P Q xs h.1 k.1)

module _ {F : Type 0} where
  -- No slot is the chunk's.
  abbrev pub IsFresh : ℕ → List (FusionSlot F) → Type 0
  IsFresh id slots = All (λ s. (s.chunk_id == id) ≡ false) slots

  -- No two slots are one chunk's.
  abbrev pub IsDistinct : List (FusionSlot F) → Type 0
  IsDistinct [] = Unit
  IsDistinct (s ∷ slots) = IsFresh s.chunk_id slots × IsDistinct slots

  module _ (new : FusionSlot F) (change : FusionSlot F → FusionSlot F)
      (keeps : (s : FusionSlot F) → (change s).chunk_id ≡ s.chunk_id) where
    -- What a change of one slot gives: the others miss it, the chunk's own is hit, or it is added.
    pub All-touch :
        (P Q : FusionSlot F → Type 0) (slots : List (FusionSlot F))
        → IsDistinct slots
        → All P slots
        → ((s : FusionSlot F) → P s → (s.chunk_id == new.chunk_id) ≡ false → Q s)
        → ((s : FusionSlot F) → P s → (s.chunk_id == new.chunk_id) ≡ true → Q (change s))
        → (IsFresh new.chunk_id slots → Q (change new))
        → All Q (touch new change slots)
    unfolding touch
    All-touch P Q [] d h miss hit added = (added tt, tt)
    All-touch P Q (s ∷ slots) d h miss hit added = elim (Bool-cases (s.chunk_id == new.chunk_id)) [
      | inl e ↦ rw e (
        hit s h.0 e,
        All-map slots (λ t k. miss t k.0 (ground (arith, e, k.1)))
            (All-both P (λ t. (t.chunk_id == s.chunk_id) ≡ false) slots h.1 d.0),
      )
      | inr e ↦ rw e (miss s h.0 e, All-touch P Q slots d.1 h.1 miss hit (λ k. added (e, k)))
    ]

    pub touch-IsDistinct :
        (slots : List (FusionSlot F)) → IsDistinct slots → IsDistinct (touch new change slots)
    unfolding touch
    touch-IsDistinct [] d = (tt, tt)
    touch-IsDistinct (s ∷ slots) d = elim (Bool-cases (s.chunk_id == new.chunk_id)) [
      | inl e ↦ rw (e, keeps s) d
      | inr e ↦ rw e (
        All-touch (λ t. (t.chunk_id == s.chunk_id) ≡ false)
            (λ t. (t.chunk_id == s.chunk_id) ≡ false) slots d.1 d.0 (λ t k m. k)
            (λ t k m. rw (keeps t) k) (λ k. rw (keeps new) (ground (arith, e))),
        touch-IsDistinct slots d.1,
      )
    ]

module _ {F : Type 0} (py : Platform) (fl : Floats F) where
  pub add_lexical-IsDistinct :
      (k rank : ℕ) (cs : List (LexicalCandidate F)) (slots : List (FusionSlot F))
      → IsDistinct slots
      → IsDistinct (add_lexical py fl k rank cs slots)
  unfolding add_lexical
  add_lexical-IsDistinct k rank [] slots d = d
  add_lexical-IsDistinct k rank (c ∷ cs) slots d =
      add_lexical-IsDistinct k (suc rank) cs
        (touch (lexical_slot py fl c) (lexical_hit py fl k rank c.lexical_score) slots)
        (touch-IsDistinct (lexical_slot py fl c) (lexical_hit py fl k rank c.lexical_score)
          (λ s. refl) slots d)

  pub add_vector-IsDistinct :
      (k rank : ℕ) (cs : List (VectorCandidate F)) (slots : List (FusionSlot F))
      → IsDistinct slots
      → IsDistinct (add_vector py fl k rank cs slots)
  unfolding add_vector
  add_vector-IsDistinct k rank [] slots d = d
  add_vector-IsDistinct k rank (c ∷ cs) slots d =
      add_vector-IsDistinct k (suc rank) cs
        (touch (vector_slot py fl c) (vector_hit py fl k rank c.vector_score) slots)
        (touch-IsDistinct (vector_slot py fl c) (vector_hit py fl k rank c.vector_score) (λ s. refl)
          slots d)

module _ {F : Type 0} where
  pub IsFresh-touch :
      (new : FusionSlot F) (change : FusionSlot F → FusionSlot F)
      → ((s : FusionSlot F) → (change s).chunk_id ≡ s.chunk_id)
      → (id : ℕ) (slots : List (FusionSlot F)) → IsFresh id (touch new change slots)
      → IsFresh id slots × ((new.chunk_id == id) ≡ false)
  unfolding touch
  IsFresh-touch new change keeps id [] f = (tt, rw (sym (keeps new)) f.0)
  IsFresh-touch new change keeps id (s ∷ slots) f =
      split (s.chunk_id == new.chunk_id) refl f (IsFresh-touch new change keeps id slots)
    where
      split :
          (b : Bool)
          → (s.chunk_id == new.chunk_id) ≡ b
          → IsFresh id (if b then change s ∷ slots else s ∷ touch new change slots)
          → (IsFresh id (touch new change slots)
              → IsFresh id slots × ((new.chunk_id == id) ≡ false))
          → IsFresh id (s ∷ slots) × ((new.chunk_id == id) ≡ false)
      split true e g later =
          let here : (s.chunk_id == id) ≡ false = rw (sym (keeps s)) g.0 in
          ((here, g.1), ground (arith, e, here))
      split false e g later = let rest = later g.1 in ((g.0, rest.0), rest.1)
