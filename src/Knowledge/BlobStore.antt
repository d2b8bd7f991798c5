-- ===== src/Knowledge/BlobStore.antt =====
-- knowledge/blob_store.py: the files of the documents, each under a key that the server makes.
use Prim.Native.String.{◌++◌ as append}
use atlascore.Base.{
  ℕ, String, Bool, not, Option, none, some, List, [], ◌∷◌, Error, Result, ok, err, ltb, length,
  str_eq, if◌then◌else◌,
}
use atlascore.Platform.{Platform}
use atlascore.Db.Session.{Action, lift, pure, raise_if, ◌>>=◌, ◌>>◌}

-- What the store takes from the file system and from `hashlib`: which keys resolve to a path under
-- the root, and which paths can be written and read.
pub record Disk : Type 0 where
  pub sha256 : List ℕ → String
  pub resolves : String → Bool
  pub writes : String → Bool
  pub reads : String → Bool

-- `BlobStore.generate_key`
unfoldable pub generate_key : Platform → ℕ → ℕ → ℕ → ℕ → String
generate_key py organisation_id workspace_id document_id version_id =
    append (py.uuid.show organisation_id) (
      append "/" (
        append (py.uuid.show workspace_id)
          (append "/" (append (py.uuid.show document_id) (append "/" (py.uuid.show version_id))))))

unfoldable pub find_blob : String → List (String × List ℕ) → Option (List ℕ)
find_blob key [] = none
find_blob key ((k, content) ∷ rest) =
    let later = find_blob key rest in if str_eq k key then some content else later

unfoldable pub without : String → List (String × List ℕ) → List (String × List ℕ)
without key [] = []
without key ((k, content) ∷ rest) =
    let later = without key rest in if str_eq k key then later else (k, content) ∷ later

-- The path is written aside and renamed, so that a failure leaves what was there.
abbrev pub keep : String → List ℕ → Action Unit
keep key content s = (ok tt, record s { blobs = (key, content) ∷ without key s.blobs })

abbrev pub drop_blob : String → Action Unit
drop_blob key s = (ok tt, record s { blobs = without key s.blobs })

-- `LocalFilesystemBlobStore`
module _ (disk : Disk) where
  -- what `put` returns
  unfoldable pub write : String → List ℕ → ℕ → Result String
  write key content max_bytes =
      if ltb max_bytes (length content)
      then err Error.blob_store_size_error
      else if not (disk.resolves key)
      then err Error.blob_store_path_error
      else if not (disk.writes key)
      then err Error.blob_store_error
      else ok (disk.sha256 content)

  unfoldable pub put : String → List ℕ → ℕ → Action String
  put key content max_bytes = do
    hash ← lift (write key content max_bytes)
    keep key content
    pure hash

  -- what `get` finds among the files
  unfoldable pub read : String → List (String × List ℕ) → Result (List ℕ)
  read key blobs =
      if not (disk.resolves key)
      then err Error.blob_store_path_error
      else elim (find_blob key blobs) [
        | none ↦ err Error.blob_not_found
        | some content ↦ if disk.reads key then ok content else err Error.blob_store_error
      ]

  unfoldable pub get : String → Action (List ℕ)
  get key s = (read key s.blobs, s)

  unfoldable pub delete : String → Action Unit
  delete key = do raise_if (not (disk.resolves key)) Error.blob_store_path_error; drop_blob key
