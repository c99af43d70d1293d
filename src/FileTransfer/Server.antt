-- ===== src/FileTransfer/Server.antt =====
-- The server of backend/services/filetransfer/main.go: `fileLimiter`, the tracing behind it, and the mux of
-- `main`.
use ziyad_messenger.Base.{ℕ, ◌+◌, String, [], ◌∷◌, Option}
use ziyad_messenger.Base.State.{Result, ok, err}
use ziyad_messenger.Base.Http.{Response, reply, http_error, status_ok}
use ziyad_messenger.RateLimiter.{IpRateLimiter, new_ip_rate_limiter}
use ziyad_messenger.Trace.{Request, Traced}
use ziyad_messenger.Services.{Call, Mux, serve_limited, health}
use ziyad_messenger.FileTransfer.{
  Cipher, Disk, FormFile, Outside, Stop, upload_handler, download_handler,
}

unfoldable pub file_limiter : IpRateLimiter
file_limiter = new_ip_rate_limiter 45 60000000000

-- 20 MiB, and one more for the form around the file.
abbrev pub default_upload_limit : ℕ
default_upload_limit = 20971520

-- The form's file as the reader finds it under the bound on the body, and the query's `id`.
pub record Payload : Type 0 where
  pub content_type : String
  pub file : ℕ → Option FormFile
  pub outside : Outside
  pub id : String

pub data Answer : Type 0 where
  stored : String → String → Answer
  content : String → Answer
  running : String → Answer

abbrev answer_with : {A : Type 0} → (A → Answer) → Result Stop A × Disk → Response Answer × Disk
answer_with f (ok a, d) = (reply status_ok (f a), d)
answer_with f (err (text, code), d) = (http_error text code, d)

module _ (cipher : Cipher) where
  abbrev pub upload_route : Payload → Request → Disk → Response Answer × Disk
  upload_route p req d =
      answer_with (λ (id, key). stored id key)
        (upload_handler cipher
          (record {
            method = req.method;
            content_type = p.content_type;
            file = p.file req.body_limit;
          })
          p.outside d)

  abbrev pub download_route : Payload → Request → Disk → Response Answer × Disk
  download_route p req d = answer_with content (download_handler cipher p.id d)

  -- A request's id falls back to a fresh UUID.
  unfoldable pub file_service : Mux Payload Answer Disk
  file_service = record {
    name = "filetransfer";
    fallback = λ fresh. fresh;
    routes =
        record {
          pattern = "/upload";
          name = "upload";
          max_body = default_upload_limit + 1048576;
          handler = upload_route;
        }
        ∷ record {
          pattern = "/download";
          name = "download";
          max_body = 0;
          handler = download_route;
        }
        ∷ record {
          pattern = "/health";
          name = "health";
          max_body = 0;
          handler = health running "File Transfer Service is running";
        }
        ∷ [];
  }

  unfoldable pub serve_file :
      Call Payload → IpRateLimiter × Disk → Option (Traced Answer) × (IpRateLimiter × Disk)
  serve_file c s = serve_limited file_service c s
