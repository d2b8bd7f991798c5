-- ===== src/Knowledge/Chunker/Coverage.antt =====
-- What the chunks of a text cover.
use Prim.Native.Nat.{min}
use atlascore.Base.{
  ℕ, zero, suc, ◌+◌, ◌-◌, ◌≤◌, ◌<◌, ◌≡◌, refl, ◌==◌, String, Option, some, List, [], ◌∷◌, ◌++◌, ok,
  arith, length, drop, All, ap, ◌∙◌, sym, inl, inr, Bool-cases, lt→ltb, length-take,
  take-append-drop,
}
use atlascore.Platform.{Platform}
use atlascore.Knowledge.Chunker.{
  Chunk, TextChunker, text_chunker, join, slice, chunk_of, chunk_loop, chunk,
}

module _ {A : Type 0} where
  abbrev the_nil : List A
  the_nil = []

  drop_nil : (n : ℕ) → the_nil ≡ drop n the_nil
  drop_nil zero = refl
  drop_nil (suc n) = refl

  drop-drop : (m n : ℕ) (xs : List A) → drop n (drop m xs) ≡ drop (m + n) xs
  drop-drop zero n xs = ap (λ k. drop k xs) (omega arith)
  drop-drop (suc m) zero [] = drop_nil (suc m + 0)
  drop-drop (suc m) (suc n) [] = drop_nil (suc m + suc n)
  drop-drop (suc m) n (x ∷ xs) =
      let sum : suc (m + n) ≡ suc m + n = omega arith in
      drop-drop m n xs ∙ ap (λ k. drop k (x ∷ xs)) sum

  no_words : (xs : List A) → length xs ≡ 0 → [] ≡ xs
  no_words [] h = refl
  no_words (x ∷ xs) h = absurd (omega (arith, h))

  drop_all : (xs : List A) → drop (length xs) xs ≡ []
  drop_all [] = refl
  drop_all (x ∷ xs) = drop_all xs

  drop-append : (n : ℕ) (xs ys : List A) → n ≤ length xs → drop n (xs ++ ys) ≡ drop n xs ++ ys
  drop-append zero xs ys h = refl
  drop-append (suc n) [] ys h = absurd (omega (arith, h))
  drop-append (suc n) (x ∷ xs) ys h = drop-append n xs ys (omega (arith, h))

  length-drop : (n : ℕ) (xs : List A) → length (drop n xs) ≡ length xs - n
  length-drop zero xs = omega arith
  length-drop (suc n) [] = omega arith
  length-drop (suc n) (x ∷ xs) = omega (arith, length-drop n xs)

  -- the lists one after the other, without the first `overlap` elements of each but the first
  abbrev pub overlapped : ℕ → List (List A) → List A
  overlapped overlap [] = []
  overlapped overlap (w ∷ ws) = drop overlap w ++ overlapped overlap ws

  abbrev pub rejoined : ℕ → List (List A) → List A
  rejoined overlap [] = []
  rejoined overlap (w ∷ ws) = w ++ overlapped overlap ws

-- the chunks of lists of words, numbered from an index
abbrev pub numbered : Platform → ℕ → List (List String) → List Chunk
numbered py idx [] = []
numbered py idx (w ∷ ws) =
    record {
      chunk_index = idx;
      chunk_text = join w;
      content_sha256 = py.sha256 (join w);
      token_count = length w;
    }
    ∷ numbered py (idx + 1) ws

module _ (py : Platform) (self : TextChunker) (words : List String) where
  abbrev IsSized : List String → Type 0
  IsSized w = (0 < length w) × (length w ≤ self.chunk_size)

  -- the words from a start on, as the loop cuts them
  record IsCut (idx start : ℕ) (chunks : Option (List Chunk)) : Type 0 where
    cut : List (List String)
    numbered_cut : chunks ≡ some (numbered py idx cut)
    sizes : All IsSized cut
    covers : rejoined self.overlap cut ≡ drop start words
    joins :
        self.overlap < length words - start
        → overlapped self.overlap cut ≡ drop self.overlap (drop start words)

  length-slice :
      (start end : ℕ)
      → start < end
      → end ≤ length words
      → length (slice py self words start end) ≡ end - start
  length-slice start end h k =
      omega (arith, h, k, length-take (end - start) (drop start words), length-drop start words)

  -- a cut that begins with the words up to an end
  slice-IsCut :
      (idx start end : ℕ) (rest : List (List String)) (chunks : Option (List Chunk))
      → start < end
      → end ≤ length words
      → end - start ≤ self.chunk_size
      → (self.overlap < length words - start → self.overlap ≤ end - start)
      → All IsSized rest
      → overlapped self.overlap rest ≡ drop end words
      → chunks ≡ some (numbered py idx (slice py self words start end ∷ rest))
      → IsCut idx start chunks
  slice-IsCut idx start end rest chunks h k fits long sizes tail same =
      let w = slice py self words start end in
      let n = length-slice start end h k in
      let whole : w ++ overlapped self.overlap rest ≡ drop start words =
        ap (λ t. w ++ t)
          (tail
            ∙ ap (λ m. drop m words) (omega (arith, h))
            ∙ sym (drop-drop start (end - start) words))
        ∙ take-append-drop (end - start) (drop start words) in
      record {
        cut = w ∷ rest;
        numbered_cut = same;
        sizes = ((omega (arith, n, h), omega (arith, n, fits)), sizes);
        covers = whole;
        joins = λ more.
            sym (
              drop-append self.overlap w (overlapped self.overlap rest)
                (omega (arith, n, long more)))
            ∙ ap (λ t. drop self.overlap t) whole;
      }

  loop-IsCut :
      (fuel idx start : ℕ)
      → self.overlap < self.chunk_size
      → self.step ≡ self.chunk_size - self.overlap
      → start < length words
      → length words - start ≤ fuel
      → IsCut idx start (chunk_loop py self words fuel idx start)
  unfolding chunk_loop chunk_of
  loop-IsCut zero idx start less step before enough = absurd (omega (arith, before, enough))
  loop-IsCut (suc fuel) idx start less step before enough =
      let end = min (start + self.chunk_size) (length words) in
      rw (lt→ltb start (length words) before) (elim (Bool-cases (end == length words)) [
        | inl last ↦
            let all : end ≡ length words = ground arith in
            rw last (
              slice-IsCut idx start end [] _ (omega (arith, all, before)) (omega (arith, all))
                (omega (arith, before)) (λ more. omega (arith, all, more)) tt
                (sym (drop_all words) ∙ ap (λ m. drop m words) (sym all)) refl)
        | inr inner ↦
            let room : start + self.chunk_size < length words = ground arith in
            let next =
              loop-IsCut fuel (idx + 1) (start + self.step) less step
                (omega (arith, room, step, less)) (omega (arith, step, less, enough)) in
            let end_at : start + self.step + self.overlap ≡ end = omega (arith, room, step, less) in
            rw inner (
              rw next.numbered_cut (
                slice-IsCut idx start end next.cut _ (omega (arith, room, less))
                  (omega (arith, room)) (omega (arith, room)) (λ more. omega (arith, room, less))
                  next.sizes
                  (next.joins (omega (arith, room, step, less))
                    ∙ drop-drop (start + self.step) self.overlap words
                    ∙ ap (λ m. drop m words) end_at)
                  refl))
      ])

-- How a chunker of a configuration cuts a text.
pub record IsChunked (py : Platform) (chunk_size overlap : ℕ) (text : String)
    (chunks : Option (List Chunk)) : Type 0 where
  pub cut : List (List String)
  pub numbered_cut : chunks ≡ some (numbered py 0 cut)
  pub sizes : All (λ w. (0 < length w) × (length w ≤ chunk_size)) cut
  pub covers : rejoined overlap cut ≡ py.split text

made-fields :
    (chunk_size overlap : ℕ) (self : TextChunker)
    → text_chunker chunk_size overlap ≡ ok self
    → (overlap < chunk_size)
      × (self ≡ record { chunk_size = chunk_size; overlap = overlap; step = chunk_size - overlap })
unfolding text_chunker
made-fields chunk_size overlap self made = (ground arith, ground arith)

chunk-cut :
    (py : Platform) (self : TextChunker) (text : String)
    → self.overlap < self.chunk_size
    → self.step ≡ self.chunk_size - self.overlap
    → IsChunked py self.chunk_size self.overlap text (chunk py self text)
unfolding chunk
chunk-cut py self text less step =
    let words = py.split text in
    elim (Bool-cases (length words == 0)) [
      | inl none_left ↦ rw none_left (record {
        cut = [];
        numbered_cut = refl;
        sizes = tt;
        covers = no_words words (ground arith);
      })
      | inr some_left ↦
          let cut =
            loop-IsCut py self words (length words) 0 0 less step (ground arith) (omega arith) in
          rw some_left (record {
            cut = cut.cut;
            numbered_cut = cut.numbered_cut;
            sizes = cut.sizes;
            covers = cut.covers;
          })
    ]

-- Every chunker that the constructor makes cuts every text, and the loop ends within its fuel. The
-- chunks are numbered from 0, each holds from one to `chunk_size` words, and the words of the
-- chunks, without the first `overlap` words of each chunk but the first, are the words of the text.
pub chunk-IsChunked :
    (py : Platform) (chunk_size overlap : ℕ) (self : TextChunker) (text : String)
    → text_chunker chunk_size overlap ≡ ok self
    → IsChunked py chunk_size overlap text (chunk py self text)
chunk-IsChunked py chunk_size overlap self text made =
    let fields = made-fields chunk_size overlap self made in
    rw fields.1 (
      chunk-cut py
        (record { chunk_size = chunk_size; overlap = overlap; step = chunk_size - overlap }) text
        fields.0 refl)
