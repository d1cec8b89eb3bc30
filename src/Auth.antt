-- ===== src/Auth.antt =====
-- Who is signed in, and who is an administrator (decision_layer/app/auth_api.py).
-- Claims are a Python dict. Firebase's check of a token, `str`, and whether Firestore and Qdrant take a
-- write are parameters or values of a request; the profiles in Firestore are a dict by user id.
pub mod Roles
mod Tests
use Prim.Native.String.{String, len, slice}
use text.Mathlib.Text.{◌==◌ as str_eq, starts_with, find?}
use mathlib.Core.Option
use omni_aegis.Prelude.{
  ℕ, ◌+◌, ◌-◌, ◌≡◌, Bool, true, false, not, ◌||◌, List, Option, none, some, if◌then◌else◌,
}
use omni_aegis.Prelude.Dict.{Dict, lookup, insert}
use omni_aegis.Redis.{is_some}
use omni_aegis.Doubles.{Doubles}
use omni_aegis.Values.{Value, Entries, end, mapping, none_value, Conversions, find, get, truthy}

-- The HTTP errors that are raised, by status and detail.
pub data AuthError : Type 0 where
  invalid_email : AuthError
  missing_header : AuthError
  not_bearer : AuthError
  missing_token : AuthError
  firebase_unavailable : AuthError
  invalid_token : AuthError
  missing_uid : AuthError
  admin_required : AuthError
  qdrant_required : AuthError

pub data Answer {ℓ} (A : Type ℓ) : Type ℓ where
  returns : A → Answer A
  raises : AuthError → Answer A

infixl 5 ◌>>=◌
abbrev pub ◌>>=◌ {ℓ κ} : {A : Type ℓ} {B : Type κ} → Answer A → (A → Answer B) → Answer B
returns a >>= f = f a
raises e >>= f = raises e

pub record AuthUser : Type 0 where
  pub user_id : String
  pub email : String
  pub role : String
  pub name : String

-- A document of the profile collection, and the body of `/auth/sync`.
pub record Profile : Type 0 where
  pub email : String
  pub name : String
  pub role : String
  pub provider : String

pub record SyncRequest : Type 0 where
  pub name : Option String
  pub provider : Option String

-- `not text`, and `a or b` on texts.
abbrev pub is_empty : String → Bool
is_empty t = str_eq t ""

abbrev pub or_text : String → String → String
or_text a b = if is_empty a then b else a

-- `t.endswith("@")` and `t.split("@")[0]`.
abbrev pub ends_with_at : String → Bool
ends_with_at t = str_eq (slice t (len t - 1) (len t)) "@"

abbrev pub before_at : String → String
before_at t = slice t 0 (Option.get_or (find? t "@") (len t))

-- The link to Qdrant: it is written (or skipped with a warning), its configuration is missing, which
-- raises an HTTP error, or connecting to it raises another exception.
pub data Qdrant : Type 0 where
  linked : Qdrant
  unconfigured : Qdrant
  unreachable : Qdrant

-- The end of `_upsert_firestore_profile`.
pub data Upserted : Type 0 where
  done : AuthUser → Upserted
  http_error : AuthError → Upserted
  other_error : Upserted

-- What the code relies on: `str` of a value, the environment, whether Firebase could be set up, and
-- its check of a token, none where it raises.
pub record AuthWorld (fl : Doubles) : Type 0 where
  pub str_of : Value fl.Float → String
  pub firebase_ready : Bool
  pub verify_id_token : String → Option (Entries fl.Float)
  pub admin_email : String

module _ {fl : Doubles} (py : Conversions fl) where
  open fl use {Float}

  -- `_normalize_email`.
  abbrev pub checked_email : String → Answer String
  checked_email normalized =
      if not (is_some (find? normalized "@"))
        || (starts_with normalized "@" || ends_with_at normalized)
      then raises invalid_email
      else returns normalized

  unfoldable pub normalize_email : String → Answer String
  normalize_email email = checked_email (py.lower (py.strip email))

  -- `_extract_bearer_token`.
  abbrev pub token_of : String → Answer String
  token_of token = if is_empty token then raises missing_token else returns token

  abbrev pub token_after : String → Option ℕ → Answer String
  token_after header none = raises not_bearer
  token_after header (some i) =
      if str_eq (py.lower (slice header 0 i)) "bearer"
      then token_of (py.strip (slice header (i + 1) (len header)))
      else raises not_bearer

  unfoldable pub extract_bearer_token : Option String → Answer String
  extract_bearer_token none = raises missing_header
  extract_bearer_token (some header) =
      if is_empty header then raises missing_header else token_after header (find? header " ")

  -- `_provider_from_claims`.
  abbrev pub provider_in : Value Float → String
  provider_in (mapping identities) =
      if is_some (find "google.com" identities)
      then "google"
      else if is_some (find "password" identities)
      then "password"
      else "unknown"
  provider_in v = "unknown"

  abbrev pub provider_of_section : Value Float → String
  provider_of_section (mapping section) = provider_in (get "identities" section)
  provider_of_section v = "unknown"

  abbrev pub provider_from_claims : Entries Float → Option String → String
  provider_from_claims claims none = provider_of_section (get "firebase" claims)
  provider_from_claims claims (some fallback) =
      if is_empty fallback then provider_of_section (get "firebase" claims) else fallback

  module _ (w : AuthWorld fl) where
    -- `str(value or "")`.
    abbrev pub text_or_empty : Value Float → String
    text_or_empty v = if truthy py v then w.str_of v else ""

    abbrev pub value_or : Value Float → Value Float → Value Float
    value_or a b = if truthy py a then a else b

    -- The role of a user.
    abbrev pub default_role : String → String
    default_role email = if str_eq email w.admin_email then "admin" else "reviewer"

    abbrev pub allowed_role : String → String
    allowed_role role = if str_eq role "admin" || str_eq role "reviewer" then role else "reviewer"

    abbrev pub role_of : Entries Float → String → String
    role_of profile email =
        allowed_role (or_text (text_or_empty (get "role" profile)) (default_role email))

    abbrev pub name_of : Entries Float → Entries Float → String → String
    name_of claims profile email =
        or_text
          (py.strip (
            or_text (text_or_empty (value_or (get "name" profile) (get "name" claims)))
              (before_at email)))
          "User"

    -- `_build_auth_user_from_claims`; a profile that is None is empty.
    unfoldable pub build_auth_user_from_claims : Entries Float → Entries Float → Answer AuthUser
    build_auth_user_from_claims claims profile =
        let uid = text_or_empty (get "uid" claims) in
        if is_empty uid then raises missing_uid else (do
          email ←
              normalize_email (text_or_empty (value_or (get "email" claims) (get "email" profile)))
          returns (record {
            user_id = uid;
            email = email;
            role = role_of profile email;
            name = name_of claims profile email;
          }))

    -- `_verify_firebase_token`.
    abbrev pub verified_claims : Option (Entries Float) → Answer (Entries Float)
    verified_claims none = raises invalid_token
    verified_claims (some claims) = returns claims

    abbrev pub verify_firebase_token : String → Answer (Entries Float)
    verify_firebase_token token =
        if w.firebase_ready
        then verified_claims (w.verify_id_token token)
        else raises firebase_unavailable

    -- A name in the body of a request.
    abbrev pub body_name : Option SyncRequest → Option String
    body_name none = none
    body_name (some body) = body.name

    abbrev pub named : Option String → AuthUser → AuthUser
    named none user = user
    named (some name) user =
        if is_empty (py.strip name) then user else record user { name = py.strip name }

    abbrev pub body_provider : Option SyncRequest → Option String
    body_provider none = none
    body_provider (some body) = body.provider

    -- The write to Firestore, which a failure leaves out.
    abbrev pub saved_profile :
        Bool → Entries Float → Option SyncRequest → AuthUser → Dict Profile → Dict Profile
    saved_profile false claims body user profiles = profiles
    saved_profile true claims body user profiles =
        insert user.user_id
          (record {
            email = user.email;
            name = user.name;
            role = user.role;
            provider = provider_from_claims claims (body_provider body);
          })
          profiles

    -- `upsert_user`, and `_upsert_firestore_profile`.
    abbrev pub upserted : Qdrant → AuthUser → Upserted
    upserted linked user = done user
    upserted unconfigured user = http_error qdrant_required
    upserted unreachable user = other_error

    abbrev pub saved_user :
        Bool
        → Qdrant
        → Entries Float
        → Option SyncRequest
        → Dict Profile
        → Answer AuthUser
        → Dict Profile × Upserted
    saved_user stored q claims body profiles (raises e) = (profiles, http_error e)
    saved_user stored q claims body profiles (returns user) =
        let user' = named (body_name body) user in
        (saved_profile stored claims body user' profiles, upserted q user')

    abbrev pub upsert_firestore_profile :
        Bool → Qdrant → Entries Float → Option SyncRequest → Dict Profile → Dict Profile × Upserted
    upsert_firestore_profile stored q claims body profiles =
        saved_user stored q claims body profiles (build_auth_user_from_claims claims end)

    -- `get_current_user`, and `sync_session` with a body: another exception than an HTTP error is
    -- answered with the user of the claims.
    abbrev pub or_claims : Entries Float → Dict Profile × Upserted → Dict Profile × Answer AuthUser
    or_claims claims (profiles, done user) = (profiles, returns user)
    or_claims claims (profiles, http_error e) = (profiles, raises e)
    or_claims claims (profiles, other_error) = (profiles, build_auth_user_from_claims claims end)

    abbrev pub verified_user :
        Bool
        → Qdrant
        → Option SyncRequest
        → Dict Profile
        → Answer (Entries Float)
        → Dict Profile × Answer AuthUser
    verified_user stored q body profiles (raises e) = (profiles, raises e)
    verified_user stored q body profiles (returns claims) =
        or_claims claims (upsert_firestore_profile stored q claims body profiles)

    unfoldable pub signed_in :
        Bool
        → Qdrant
        → Option SyncRequest
        → Option String
        → Dict Profile
        → Dict Profile × Answer AuthUser
    signed_in stored q body authorization profiles =
        verified_user stored q body profiles
          (extract_bearer_token authorization >>= verify_firebase_token)

    -- `require_admin`.
    abbrev pub check_admin : AuthUser → Answer AuthUser
    check_admin user = if str_eq user.role "admin" then returns user else raises admin_required

    unfoldable pub require_admin :
        Bool → Qdrant → Option String → Dict Profile → Dict Profile × Answer AuthUser
    require_admin stored q authorization profiles =
        let r = signed_in stored q none authorization profiles in (r.0, r.1 >>= check_admin)
