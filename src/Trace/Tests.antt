-- ===== src/Trace/Tests.antt =====
-- The wrappers around a handler, at two requests.
use Prim.Native.Nat.{suc}
use ziyad_messenger.Base.{ℕ, ◌≡◌, ◌≢◌, refl, String, some, false, arith, ◌==◌, eq_iff}
use ziyad_messenger.Base.Text.{trim_space, cut}
use ziyad_messenger.Base.Http.{Response, reply}
use ziyad_messenger.Trace.{Request, Entropy, get_or_create_request_id, client_ip}

abbrev bare : Request
bare = record {
  method = "POST";
  path = "/log";
  request_id = " ";
  forwarded_for = " 10.0.0.9 , 10.0.0.1";
  remote_addr = "127.0.0.1:5000";
  body_limit = 0;
}

abbrev random : Entropy
random = record { random = some "00ff"; fallback = "audit-fallback-id" }

-- A handler that counts its calls.
abbrev count : Request → ℕ → Response String × ℕ
count req n = (reply 201 req.request_id, suc n)

client_ip-bare : client_ip bare ≡ "10.0.0.9"
unfolding client_ip trim_space cut
client_ip-bare = refl

get_or_create_request_id-bare : get_or_create_request_id bare random ≡ "00ff"
unfolding get_or_create_request_id trim_space
get_or_create_request_id-bare = refl

text-ne-empty : (s : String) → (s == "") ≡ false → s ≢ ""
text-ne-empty s h = ground (arith, eq_iff s "")

some-ne-empty : (s : String) → (s == "") ≡ false → some s ≢ some ""
some-ne-empty s h = ground (arith, eq_iff s "")
