-- ===== src/FileTransfer.antt =====
-- backend/services/filetransfer/main.go: `UploadHandler` and `DownloadHandler`. Its tracing and its limiter are
-- those of Trace and RateLimiter.
-- Bytes are texts. AES-GCM is a parameter; setting it up with a key of 32 bytes does not fail. What the random
-- source, the file system and the reader of the body answer comes from outside. The storage directory is flat:
-- a name has no separator, so `Join` puts it behind the directory and `Glob` looks at the names.
-- The id is taken as it is: no id that is a UUID has a character that is special in a pattern.
pub mod Names
pub mod Storage
pub mod Server
mod Tests
use Prim.Native.String
use ziyad_messenger.Base.{
  ℕ, String, len, Bool, true, false, not, ◌&&◌, ◌||◌, List, [], ◌∷◌, map, Option, none, some, ◌==◌,
  ltb, select, if◌then◌else◌,
}
use ziyad_messenger.Base.Assoc.{insert, get_or}
use ziyad_messenger.Base.Order.{text_lt, order_by}
use ziyad_messenger.Base.State.{Result, ok, err, and_then, ◌>>=◌, ◌>>◌, return, throw, guard}
use ziyad_messenger.FileTransfer.Names.{strip_prefix, contains, has_suffix, ext}

pub record Cipher : Type 0 where
  pub seal : String → String → String → String
  pub open_sealed : String → String → String → Option String
  pub is_uuid : String → Bool

-- The names in the storage directory with their contents.
abbrev pub Disk : Type 0
Disk = List (String × String)

abbrev pub Stop : Type 0
Stop = String × ℕ

abbrev pub M : Type 0 → Type 0
M A = Disk → Result Stop A × Disk

pub record FormFile : Type 0 where
  pub filename : String
  pub content : String

pub record UploadRequest : Type 0 where
  pub method : String
  pub content_type : String
  pub file : Option FormFile

-- A new id, whether a file can be made, the random key and nonce, whether the body can be read, and
-- whether each of the two writes succeeds.
pub record Outside : Type 0 where
  pub uuid : String
  pub create : Bool
  pub key : Option String
  pub iv : Option String
  pub read : Bool
  pub write_iv : Bool
  pub write_rest : Bool

abbrev some_or : {A : Type 0} → Option A → Stop → M A
some_or none stop d = (err stop, d)
some_or (some a) stop d = (ok a, d)

-- `os.Create`, which empties a file that is there.
abbrev create : Bool → String → M (Unit {0})
create false name d = (err ("Failed to save file", 500), d)
create true name d = (ok tt, insert name "" d)

-- `out.Write`
abbrev write : Bool → String → String → M (Unit {0})
write false name bytes d = (err ("Write error", 500), d)
write true name bytes d = (ok tt, insert name (String.◌++◌ (get_or name "" d) bytes) d)

abbrev pub name_of : String → String → String
name_of uuid filename = String.◌++◌ uuid (String.◌++◌ (ext filename) ".enc")

module _ (cipher : Cipher) where
  -- The id of the file and the key, as the answer shows them.
  unfoldable pub upload_handler : UploadRequest → Outside → M (String × String)
  unfolding contains ext
  upload_handler r out = do
    guard (r.method == "POST") ("Method not allowed", 405)
    guard (contains "multipart/form-data" r.content_type)
        ("Content-Type must be multipart/form-data", 400)
    file ← some_or r.file ("Invalid file", 400)
    guard (not (file.filename == "" || ltb 255 (len file.filename))) ("Invalid filename", 400)
    guard (not (ltb 16 (len (ext file.filename)))) ("Invalid file extension", 400)
    let name = name_of out.uuid file.filename
    create out.create name
    key ← some_or out.key ("Crypto error", 500)
    iv ← some_or out.iv ("Crypto error", 500)
    guard out.read ("Read error", 500)
    write out.write_iv name iv
    write out.write_rest name (cipher.seal key iv file.content)
    return (out.uuid, key)

-- The pattern `id*.enc`.
unfoldable pub is_match : String → String → Bool
unfolding strip_prefix has_suffix
is_match id name = elim (strip_prefix id name) [ none ↦ false | some rest ↦ has_suffix ".enc" rest ]

-- `filepath.Glob`, whose matches come in the order of their names.
unfoldable pub glob : String → Disk → List String
unfolding is_match
glob id d = order_by text_lt (select (is_match id) (map (λ (f : String × String). f.0) d))

abbrev first_file : List String → M String
first_file [] d = (err ("File not found", 404), d)
first_file (name ∷ names) d = (ok (get_or name "" d), d)

-- The content that `ServeFile` sends, without ranges.
unfoldable pub download_handler : Cipher → String → M String
unfolding glob
download_handler cipher id = do
  guard (not (id == "")) ("Missing file ID", 400)
  guard (cipher.is_uuid id) ("Invalid file ID", 400)
  (λ d. first_file (glob id d) d)
