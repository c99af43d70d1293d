-- ===== src/Admin/Tests/Setup.antt =====
-- The set-up of the admin service, with packages that know one token.
use Prim.Native.String
use ziyad_messenger.Base.{
  Bool, true, ◌&&◌, ◌≡◌, refl, [], none, some, ◌==◌, arith, eq_iff, eqb, ltb, if◌then◌else◌,
}
use ziyad_messenger.Base.Text.{cut}
use ziyad_messenger.Base.State.{ok}
use ziyad_messenger.Admin.Store.{AdminUser, Claims, Service}
use ziyad_messenger.Admin.Auth.{Packages, new_admin, claims_of, login_handler}
use ziyad_messenger.Admin.Auth.Setup.{IsSane, set_up, set_up-admits}
use ziyad_messenger.Admin.Server.{admit}
use ziyad_messenger.Admin.Tests.{ctx, tables}

abbrev first : Claims
first = record { user_id = "u-9"; username = "admin"; role = "super_admin" }

abbrev is_first : Claims → Bool
is_first who = who.user_id == "u-9" && (who.username == "admin" && who.role == "super_admin")

-- It signs for a day from 1000 on.
abbrev one_token : Packages
one_token = record {
  generate_from_password = λ salt password. some (String.◌++◌ salt password);
  compare_hash_and_password = λ hash password. true;
  sign = λ who expires now secret. if is_first who && eqb expires 87400 then some "good" else none;
  parse_with_claims =
      λ token secret now. if token == "good" then some (first, ltb now 87400) else none;
}

one_token-IsSane : IsSane one_token
one_token-IsSane = record {
  compared = λ salt password hash h. refl;
  signed = λ who expires now later secret token h soon. ground (
    arith,
    eq_iff who.user_id "u-9",
    eq_iff who.username "admin",
    eq_iff who.role "super_admin",
    eq_iff token "good",
  );
}

abbrev new_service : Service
new_service = record { db = record tables { admin_users = [] }; faults = [] }

abbrev made : AdminUser
made = new_admin one_token "admin" "saltadmin" "super_admin" ctx

set_up-admits_example :
    ((login_handler one_token ""
        (some (record { username = "admin"; password = "admin" }))
        ctx
        (set_up one_token ctx new_service)).0
      ≡ ok (record { token = "good"; user = made; expires_at = 87400 }))
    × (admit one_token "" 5000 "Bearer good" ≡ ok (claims_of one_token made))
unfolding new_admin claims_of cut
set_up-admits_example =
    set_up-admits one_token "" ctx ctx new_service "saltadmin" "good" "Bearer good" 5000
      one_token-IsSane refl refl refl refl (omega arith) refl
