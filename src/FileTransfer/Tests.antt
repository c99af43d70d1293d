-- ===== src/FileTransfer/Tests.antt =====
-- Uploads and downloads with a cipher that hides nothing.
use Prim.Native.String.{String, [], ◌∷◌}
use Prim.Native.String
use ziyad_messenger.Base.{true, false, List, none, some, ◌≡◌, ◌⊎◌, refl}
use ziyad_messenger.Base.Text.{contains_char}
use ziyad_messenger.Base.Assoc.{lookup}
use ziyad_messenger.Base.State.{ok}
use ziyad_messenger.FileTransfer.{
  Cipher, Disk, FormFile, UploadRequest, Outside, upload_handler, is_match, download_handler,
}
use ziyad_messenger.FileTransfer.Storage.{upload_handler-stays, download_handler-upload_handler}

abbrev plain : Cipher
plain = record {
  seal = λ key iv content. content;
  open_sealed = λ key iv sealed. some sealed;
  is_uuid = λ id. true;
}

abbrev note : FormFile
note = record { filename = "notes.v2.txt"; content = "hello" }

abbrev request : UploadRequest
request = record {
  method = "POST";
  content_type = "multipart/form-data; boundary=x";
  file = some note;
}

abbrev outside : Outside
outside = record {
  uuid = "7f3a";
  create = true;
  key = some "k";
  iv = some "n";
  read = true;
  write_iv = true;
  write_rest = true;
}

abbrev stored : Disk
stored = (upload_handler plain request outside List.[]).1

upload_handler-stays_example :
    (lookup "../main.go" stored ≡ none)
    ⊎ ((contains_char b'/' "../main.go" ≡ false) × (is_match "7f3a" "../main.go" ≡ true))
unfolding contains_char lookup
upload_handler-stays_example = upload_handler-stays plain request outside "../main.go" List.[] refl

download_handler-upload_handler_example :
    (iv : String) × (sealed : String) × (download_handler plain "7f3a" stored
      ≡ (ok (String.◌++◌ iv sealed), stored))
    × (some sealed ≡ some "hello")
unfolding upload_handler
download_handler-upload_handler_example =
    download_handler-upload_handler plain request note outside List.[] stored "7f3a" "k"
      (λ k n c. refl) refl refl refl refl refl
