-- ===== src/FileTransfer/Storage.antt =====
-- What an upload leaves in the storage, and that a download brings it back.
use Prim.Native.String
use Prim.Native.String.{String}
use ziyad_messenger.Base.{
  Bool, true, false, List, [], ◌∷◌, map, Option, none, some, ◌==◌, ◌≡◌, ◌⊎◌, inl, inr, refl, sym,
  arith, any, select, eq_iff, eq_refl, Bool-cases,
}
use text.Mathlib.TextLemmas.{nil-append}
use ziyad_messenger.Base.Assoc.{insert, lookup, get_or, lookup-insert}
use ziyad_messenger.Base.Text.{contains_char}
use ziyad_messenger.Base.Order.{order_by, order_from, insert_sorted}
use ziyad_messenger.Base.State.{ok}
use ziyad_messenger.FileTransfer.Names.{
  ext, ext_plain, strip_prefix-append, has_suffix-append, contains_char-append,
}
use ziyad_messenger.FileTransfer.{
  Cipher, Disk, FormFile, UploadRequest, Outside, name_of, upload_handler, is_match, glob,
  download_handler,
}

name_of_plain :
    (uuid filename : String)
    → contains_char b'/' uuid ≡ false
    → contains_char b'/' (name_of uuid filename) ≡ false
unfolding contains_char
name_of_plain uuid filename h = ground (
  arith,
  contains_char-append b'/' uuid (String.◌++◌ (ext filename) ".enc"),
  contains_char-append b'/' (ext filename) ".enc",
  ext_plain filename,
)

name_of_match : (uuid filename : String) → is_match uuid (name_of uuid filename) ≡ true
unfolding is_match
name_of_match uuid filename = ground (
  arith,
  strip_prefix-append uuid (String.◌++◌ (ext filename) ".enc"),
  has_suffix-append ".enc" (ext filename),
)

untouched :
    (name other bytes : String) (d : Disk)
    → (name == other) ≡ false
    → lookup other (insert name bytes d) ≡ lookup other d
untouched name other bytes d h = ground (arith, lookup-insert name other bytes d)

upload_untouched :
    (cipher : Cipher) (r : UploadRequest) (out : Outside) (other : String) (d : Disk)
    (file : FormFile)
    → (name_of out.uuid file.filename == other) ≡ false
    → r.file ≡ some file
    → lookup other (upload_handler cipher r out d).1 ≡ lookup other d
unfolding upload_handler
upload_untouched cipher r out other d file new form = grind (arith, untouched)

upload_nothing :
    (cipher : Cipher) (r : UploadRequest) (out : Outside) (other : String) (d : Disk)
    → r.file ≡ none
    → lookup other (upload_handler cipher r out d).1 ≡ lookup other d
unfolding upload_handler
upload_nothing cipher r out other d form = ground arith

-- Whatever is uploaded under whatever name, and however the call ends, no file changes but the one of the new id,
-- whose name has no separator: it stands in the storage directory.
pub upload_handler-stays :
    (cipher : Cipher) (r : UploadRequest) (out : Outside) (other : String) (d : Disk)
    → contains_char b'/' out.uuid ≡ false
    → (lookup other (upload_handler cipher r out d).1 ≡ lookup other d)
      ⊎ ((contains_char b'/' other ≡ false) × (is_match out.uuid other ≡ true))
upload_handler-stays cipher r out other d h = from r.file refl
  where
    nothing : (e : r.file ≡ none) → lookup other (upload_handler cipher r out d).1 ≡ lookup other d
    nothing e = upload_nothing cipher r out other d e

    from :
        (file : Option FormFile) (e : r.file ≡ file)
        → (lookup other (upload_handler cipher r out d).1 ≡ lookup other d)
          ⊎ ((contains_char b'/' other ≡ false) × (is_match out.uuid other ≡ true))
    from none e = inl (nothing e)
    from (some file) e = elim (Bool-cases (name_of out.uuid file.filename == other)) [
      | inr new ↦ inl (upload_untouched cipher r out other d file new e)
      | inl same ↦
          let is_it : name_of out.uuid file.filename ≡ other =
            ground (arith, eq_iff (name_of out.uuid file.filename) other) in
          inr (
            rw (sym is_it) (name_of_plain out.uuid file.filename h),
            rw (sym is_it) (name_of_match out.uuid file.filename),
          )
    ]

abbrev names : Disk → List String
names d = map (λ (f : String × String). f.0) d

module _ (p : String → Bool) (name : String) (here : p name ≡ true) where
  -- A name that is the only one to pass a test stays so when it is written again.
  names-insert_again :
      (bytes : String) (d : Disk)
      → select p (names d) ≡ name ∷ []
      → select p (names (insert name bytes d)) ≡ name ∷ []
  unfolding insert
  names-insert_again bytes [] h = ground arith
  names-insert_again bytes ((n, old) ∷ d) h =
      ground (arith, names-insert_again bytes d, eq_iff n name)

  names-insert_new :
      (bytes : String) (d : Disk)
      → any p (names d) ≡ false
      → select p (names (insert name bytes d)) ≡ name ∷ []
  unfolding insert
  names-insert_new bytes [] h = ground arith
  names-insert_new bytes ((n, old) ∷ d) h = ground (arith, names-insert_new bytes d, eq_iff n name)

abbrev after_create : String → Disk → Disk
after_create name d = insert name "" d

abbrev after_write : String → String → Disk → Disk
after_write name bytes d = insert name (String.◌++◌ (get_or name "" d) bytes) d

get_or-after_write :
    (name bytes : String) (d : Disk)
    → get_or name "" (after_write name bytes d) ≡ String.◌++◌ (get_or name "" d) bytes
get_or-after_write name bytes d =
    ground (arith, lookup-insert name name (String.◌++◌ (get_or name "" d) bytes) d, eq_refl name)

get_or-after_create : (name : String) (d : Disk) → get_or name "" (after_create name d) ≡ ""
get_or-after_create name d = ground (arith, lookup-insert name name "" d, eq_refl name)

module _ (cipher : Cipher) (out : Outside) where
  upload_handler-eq-ok :
      (r : UploadRequest) (file : FormFile) (d d' : Disk) (id key : String)
      → r.file ≡ some file
      → upload_handler cipher r out d ≡ (ok (id, key), d')
      → (iv : String) × (id ≡ out.uuid)
        × (let name = name_of out.uuid file.filename in
            d'
            ≡ after_write name
                (cipher.seal key iv file.content)
                (after_write name iv (after_create name d)))
  unfolding upload_handler
  upload_handler-eq-ok r file d d' id key form h = from out.iv refl
    where
      from :
          (o : Option String) (e : out.iv ≡ o)
          → (iv : String) × (id ≡ out.uuid)
            × (let name = name_of out.uuid file.filename in
                d'
                ≡ after_write name
                    (cipher.seal key iv file.content)
                    (after_write name iv (after_create name d)))
      from none e = absurd (ground arith)
      from (some iv) e = (iv, ground arith, ground arith)

-- A file that was uploaded can be downloaded by its id, where no other name of the storage goes with that id, and
-- what is sent is the nonce and a text that the key of the answer opens to the content.
pub download_handler-upload_handler :
    (cipher : Cipher) (r : UploadRequest) (file : FormFile) (out : Outside) (d d' : Disk)
    (id key : String)
    → ((k n c : String) → cipher.open_sealed k n (cipher.seal k n c) ≡ some c)
    → cipher.is_uuid out.uuid ≡ true
    → (out.uuid == "") ≡ false
    → any (is_match out.uuid) (map (λ (f : String × String). f.0) d) ≡ false
    → r.file ≡ some file
    → upload_handler cipher r out d ≡ (ok (id, key), d')
    → (iv : String) × (sealed : String) × (download_handler cipher id d'
        ≡ (ok (String.◌++◌ iv sealed), d'))
      × (cipher.open_sealed key iv sealed ≡ some file.content)
unfolding download_handler glob order_by order_from insert_sorted
download_handler-upload_handler cipher r file out d d' id key opens uuid named fresh form h =
    let (iv, same, stored) = upload_handler-eq-ok cipher out r file d d' id key form h in
    let name = name_of out.uuid file.filename in
    let sealed = cipher.seal key iv file.content in
    let fits = name_of_match out.uuid file.filename in
    let d₁ = after_create name d in
    let d₂ = after_write name iv d₁ in
    let one = names-insert_new (is_match out.uuid) name fits "" d fresh in
    let two =
      names-insert_again (is_match out.uuid) name fits (String.◌++◌ (get_or name "" d₁) iv) d₁
        one in
    let three =
      names-insert_again (is_match out.uuid) name fits (String.◌++◌ (get_or name "" d₂) sealed) d₂
        two in
    (
      iv,
      sealed,
      ground (
        arith,
        three,
        get_or-after_write name sealed d₂,
        get_or-after_write name iv d₁,
        get_or-after_create name d,
        nil-append iv,
        eq_iff out.uuid "",
      ),
      opens key iv file.content,
    )
