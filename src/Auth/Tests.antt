-- ===== src/Auth/Tests.antt =====
-- Requests with toy tokens, and the theorems at concrete requests.
use Prim.Native.String.{String}
use text.Mathlib.Text.{◌==◌ as str_eq}
use omni_aegis.Prelude.{ℕ, ◌≡◌, refl, true, false, ◌&&◌, [], ◌∷◌, none, some, if◌then◌else◌}
use omni_aegis.Values.{Value, Entries, end, entry, string, boolean}
use omni_aegis.Sentinel.Samples.{thousandths, conversions}
use omni_aegis.Auth.{
  raises, not_bearer, invalid_email, qdrant_required, AuthUser, Profile, linked, unconfigured,
  AuthWorld, normalize_email, extract_bearer_token, build_auth_user_from_claims, signed_in,
  require_admin,
}
use omni_aegis.Auth.Roles.{
  is_returned, StoredRole, require_admin-accepts_admin, signed_in-StoredRole,
}

program : Unit {0}
unfolding normalize_email extract_bearer_token build_auth_user_from_claims signed_in require_admin
program = tt

abbrev text_of : Value ℕ → String
text_of (string t) = t
text_of v = "?"

-- The administrator's address, which nobody has verified.
abbrev claims : Entries ℕ
claims =
    entry "uid" (string "u1")
      (entry "email" (string "admin@x") (entry "email_verified" (boolean false) end))

abbrev world : AuthWorld thousandths
world = record {
  str_of = text_of;
  firebase_ready = true;
  verify_id_token = λ t. if str_eq t "good" then some claims else none;
  admin_email = "admin@x";
}

abbrev reviewer : Profile
reviewer = record { email = "admin@x"; name = "A"; role = "reviewer"; provider = "password" }

no_bearer : extract_bearer_token conversions (some "Token abc") ≡ raises not_bearer
unfolding program
no_bearer = refl

bad_email : normalize_email conversions "a@" ≡ raises invalid_email
unfolding program
bad_email = refl

require_admin-accepts_admin_example :
    is_returned
      (require_admin conversions world true linked (some "bearer good") (("u1", reviewer) ∷ [])).1
    ≡ (true && true)
unfolding program
require_admin-accepts_admin_example =
    require_admin-accepts_admin conversions world true linked (some "bearer good")
      (("u1", reviewer) ∷ [])

-- Without Qdrant's configuration nobody is signed in.
no_qdrant :
    (require_admin conversions world true unconfigured (some "bearer good") []).1
    ≡ raises qdrant_required
unfolding program
no_qdrant = refl

abbrev user : AuthUser
user = record { user_id = "u1"; email = "admin@x"; role = "admin"; name = "admin" }

signed_in-StoredRole_example :
    StoredRole conversions world
      (signed_in conversions world true linked none (some "bearer good") (("u1", reviewer) ∷ [])).0
      user
unfolding program
signed_in-StoredRole_example =
    signed_in-StoredRole conversions world linked none (some "bearer good") (("u1", reviewer) ∷ [])
      user refl
