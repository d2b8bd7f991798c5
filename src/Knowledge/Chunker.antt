-- ===== src/Knowledge/Chunker.antt =====
-- knowledge/chunker.py: a text as overlapping chunks of words. The sizes are natural numbers, so
-- the guards against negative ones leave the guard against a chunk size of 0.
pub mod Coverage
use Prim.Native.Nat.{min}
use Prim.Native.String.{◌++◌ as append}
use atlascore.Base.{
  ℕ, zero, suc, ◌+◌, ◌-◌, ◌==◌, ltb, leb, String, Bool, Option, none, some, List, [], ◌∷◌, Result,
  ok, err, Error, if◌then◌else◌, length, take, drop,
}
use atlascore.Platform.{Platform}

pub record Chunk : Type 0 where
  pub chunk_index : ℕ
  pub chunk_text : String
  pub content_sha256 : String
  pub token_count : ℕ

pub record TextChunker : Type 0 where
  pub chunk_size : ℕ
  pub overlap : ℕ
  pub step : ℕ

-- `TextChunker(chunk_size=…, overlap=…)`
unfoldable pub text_chunker : ℕ → ℕ → Result TextChunker
text_chunker chunk_size overlap =
    if leb chunk_size 0
    then err Error.chunker_config_error
    else if leb chunk_size overlap
    then err Error.chunker_config_error
    else ok (record { chunk_size = chunk_size; overlap = overlap; step = chunk_size - overlap })

-- `" ".join(words)`
unfoldable pub join : List String → String
join [] = ""
join (w ∷ []) = w
join (w ∷ v ∷ ws) = append w (append " " (join (v ∷ ws)))

module _ (py : Platform) (self : TextChunker) (words : List String) where
  -- `words[start:end]`
  abbrev pub slice : ℕ → ℕ → List String
  slice start end = take (end - start) (drop start words)

  unfoldable pub chunk_of : ℕ → List String → Chunk
  chunk_of idx chunk_words = record {
    chunk_index = idx;
    chunk_text = join chunk_words;
    content_sha256 = py.sha256 (join chunk_words);
    token_count = length chunk_words;
  }

  -- the while loop, `none` where the fuel runs out
  unfoldable pub chunk_loop : ℕ → ℕ → ℕ → Option (List Chunk)
  chunk_loop zero idx start = none
  chunk_loop (suc fuel) idx start =
      let rest = chunk_loop fuel (idx + 1) (start + self.step) in
      let end = min (start + self.chunk_size) (length words) in
      let new = chunk_of idx (slice start end) in
      let more : Option (List Chunk) = elim rest [
        | none ↦ none
        | some chunks ↦ some (new ∷ chunks)
      ] in
      if ltb start (length words)
      then (if end == length words then some (new ∷ []) else more)
      else some []

-- The loop starts anew at most once for each word.
unfoldable pub chunk : Platform → TextChunker → String → Option (List Chunk)
chunk py self text =
    let words = py.split text in
    if length words == 0 then some [] else chunk_loop py self words (length words) 0 0
