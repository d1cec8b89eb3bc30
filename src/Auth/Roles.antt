-- ===== src/Auth/Roles.antt =====
-- What makes an administrator.
use Prim.Native.String.{String}
use text.Mathlib.Text.{◌==◌ as str_eq}
use mathlib.Core.Path.{subst}
use omni_aegis.Prelude.{
  ◌≡◌, refl, sym, ap, ◌∙◌, Bool, true, false, not, ◌&&◌, inl, inr, Option, none, some,
  if◌then◌else◌, Bool-cases,
}
use omni_aegis.Prelude.Dict.{Dict, lookup, lookup-insert, str_eq_refl}
use omni_aegis.Doubles.{Doubles}
use omni_aegis.Values.{Value, truthy, Entries, end, none_value, Conversions, get}
use omni_aegis.Auth.{
  Answer, returns, raises, AuthUser, Profile, SyncRequest, missing_uid, Qdrant, linked,
  unconfigured, unreachable, is_empty, AuthWorld, normalize_email, extract_bearer_token,
  text_or_empty, value_or, default_role, role_of, name_of, build_auth_user_from_claims, named,
  body_name, body_provider, provider_from_claims, saved_profile, saved_user, or_claims,
  verify_firebase_token, verified_user, signed_in, check_admin, require_admin, ◌>>=◌,
}

abbrev pub is_returned {ℓ} : {A : Type ℓ} → Answer A → Bool
is_returned (returns a) = true
is_returned (raises e) = false

abbrev pub is_configured : Qdrant → Bool
is_configured unconfigured = false
is_configured q = true

module _ {fl : Doubles} (py : Conversions fl) (w : AuthWorld fl) where
  open fl use {Float}

  default_role-admin :
      (email : String) → str_eq (default_role py w email) "admin" ≡ str_eq email w.admin_email
  default_role-admin email = elim (Bool-cases (str_eq email w.admin_email)) [
    | inl e ↦ rw (e) refl
    | inr e ↦ rw (e) refl
  ]

  role_of-end : (email : String) → role_of py w end email ≡ default_role py w email
  role_of-end email = elim (Bool-cases (str_eq email w.admin_email)) [
    | inl e ↦ rw (e) refl
    | inr e ↦ rw (e) refl
  ]

  -- The independent test: the token is accepted, it has a user id, and its e-mail address is the
  -- administrator's.
  abbrev pub is_admin_email : Answer String → Bool
  is_admin_email (returns email) = str_eq email w.admin_email
  is_admin_email (raises e) = false

  abbrev pub names_admin : Entries Float → Bool
  names_admin claims =
      not (is_empty (text_or_empty py w (get "uid" claims)))
      && is_admin_email (normalize_email py (text_or_empty py w (get "email" claims)))

  abbrev pub accepts_admin : Answer (Entries Float) → Bool
  accepts_admin (returns claims) = names_admin claims
  accepts_admin (raises e) = false

  text_or_empty-value_or :
      (v : Value Float) → text_or_empty py w (value_or py w v none_value) ≡ text_or_empty py w v
  text_or_empty-value_or v = elim (Bool-cases (truthy py v)) [
    | inl e ↦ rw (e) (rw (e) refl)
    | inr e ↦ rw (e) refl
  ]

  user_of : Entries Float → String → AuthUser
  user_of claims email = record {
    user_id = text_or_empty py w (get "uid" claims);
    email = email;
    role = role_of py w end email;
    name = name_of py w claims end email;
  }

  -- The user that is built of claims.
  build_auth_user_from_claims-user_of :
      (claims : Entries Float)
      → build_auth_user_from_claims py w claims end ≡ (
          if is_empty (text_or_empty py w (get "uid" claims))
          then raises missing_uid
          else (normalize_email py (text_or_empty py w (get "email" claims)) >>= λ email.
              returns (user_of claims email)))
  unfolding build_auth_user_from_claims user_of
  build_auth_user_from_claims-user_of claims =
      ap
        (λ t.
          if is_empty (text_or_empty py w (get "uid" claims))
          then raises missing_uid
          else (normalize_email py t >>= λ email. returns (user_of claims email)))
        (text_or_empty-value_or (get "email" claims))

  email-admin :
      (claims : Entries Float) (o : Answer String)
      → is_returned (o >>= (λ email. returns (user_of claims email)) >>= check_admin py w)
        ≡ is_admin_email o
  unfolding user_of
  email-admin claims (raises e) = refl
  email-admin claims (returns email) =
      let same = ap (λ role. str_eq role "admin") (role_of-end email) ∙ default_role-admin email in
      elim (Bool-cases (str_eq email w.admin_email)) [
        | inl e ↦ rw (same ∙ e, e) refl
        | inr e ↦ rw (same ∙ e, e) refl
      ]

  build-admin :
      (claims : Entries Float)
      → is_returned (build_auth_user_from_claims py w claims end >>= check_admin py w)
        ≡ names_admin claims
  build-admin claims =
      rw (build_auth_user_from_claims-user_of claims)
        (elim (Bool-cases (is_empty (text_or_empty py w (get "uid" claims)))) [
          | inl e ↦ rw (e) refl
          | inr e ↦
              rw (e)
                (email-admin claims (normalize_email py (text_or_empty py w (get "email" claims))))
        ])

  saved-admin :
      (stored : Bool) (q : Qdrant) (profiles : Dict Profile) (claims : Entries Float)
      (b : Answer AuthUser)
      → build_auth_user_from_claims py w claims end ≡ b
      → is_returned (
          (or_claims py w claims (saved_user py w stored q claims none profiles b)).1
          >>= check_admin py w)
        ≡ (is_configured q && is_returned (b >>= check_admin py w))
  saved-admin stored linked profiles claims (raises e) h = refl
  saved-admin stored unconfigured profiles claims (raises e) h = refl
  saved-admin stored unreachable profiles claims (raises e) h = refl
  saved-admin stored linked profiles claims (returns user) h = refl
  saved-admin stored unconfigured profiles claims (returns user) h = refl
  saved-admin stored unreachable profiles claims (returns user) h =
      ap (λ b. is_returned (b >>= check_admin py w)) h

  and_false : (b : Bool) → (b && false) ≡ false
  and_false true = refl
  and_false false = refl

  verified-admin :
      (stored : Bool) (q : Qdrant) (profiles : Dict Profile) (o : Answer (Entries Float))
      → is_returned ((verified_user py w stored q none profiles o).1 >>= check_admin py w)
        ≡ (is_configured q && accepts_admin o)
  verified-admin stored q profiles (raises e) = sym (and_false (is_configured q))
  verified-admin stored q profiles (returns claims) =
      saved-admin stored q profiles claims (build_auth_user_from_claims py w claims end) refl
      ∙ ap (λ b. is_configured q && b) (build-admin claims)

  -- `require_admin` lets a request pass exactly if Qdrant is configured, the token is accepted, and
  -- its claims have a user id and the administrator's e-mail address. No other claim counts, whether
  -- the address is verified among them, nor does the role that is stored in Firestore.
  pub require_admin-accepts_admin :
      (stored : Bool) (q : Qdrant) (authorization : Option String) (profiles : Dict Profile)
      → is_returned (require_admin py w stored q authorization profiles).1 ≡ (
          is_configured q
          && accepts_admin (extract_bearer_token py authorization >>= verify_firebase_token py w))
  unfolding require_admin signed_in
  require_admin-accepts_admin stored q authorization profiles =
      verified-admin stored q profiles
        (extract_bearer_token py authorization >>= verify_firebase_token py w)

  -- The stored profile has the role of the e-mail address, and so has the user.
  abbrev pub StoredRole : Dict Profile → AuthUser → Type 0
  StoredRole profiles user =
      (p : Profile) × (lookup user.user_id profiles ≡ some p)
      × (p.role ≡ default_role py w user.email)
      × (user.role ≡ default_role py w user.email)

  bind-returns :
      (o : Answer String) (f : String → AuthUser) (user : AuthUser)
      → (o >>= (λ x. returns (f x))) ≡ returns user
      → (x : String) × (f x ≡ user)
  bind-returns (raises e) f user h = absurd (cc h)
  bind-returns (returns x) f user h = (x, cc h)

  build-role :
      (claims : Entries Float) (user : AuthUser)
      → build_auth_user_from_claims py w claims end ≡ returns user
      → user.role ≡ default_role py w user.email
  unfolding user_of
  build-role claims user h =
      let h' = sym (build_auth_user_from_claims-user_of claims) ∙ h in
      elim (Bool-cases (is_empty (text_or_empty py w (get "uid" claims)))) [
        | inl e ↦ absurd (let x = rw (e) at h' in cc x)
        | inr e ↦
            let found : (normalize_email py (text_or_empty py w (get "email" claims))
                  >>= (λ email. returns (user_of claims email)))
                ≡ returns user =
              rw (e) at h' in
            let (email, same) = bind-returns _ (user_of claims) user found in
            subst (λ (u : AuthUser). u.role ≡ default_role py w u.email) same (role_of-end email)
      ]

  named-same :
      (name : Option String) (user : AuthUser)
      → ((named py w name user).user_id ≡ user.user_id)
        × ((named py w name user).role ≡ user.role)
        × ((named py w name user).email ≡ user.email)
  named-same none user = (refl, refl, refl)
  named-same (some name) user = elim (Bool-cases (is_empty (py.strip name))) [
    | inl e ↦ rw (e) (refl, refl, refl)
    | inr e ↦ rw (e) (refl, refl, refl)
  ]

  saved-StoredRole :
      (claims : Entries Float) (body : Option SyncRequest) (profiles : Dict Profile)
      (user user' : AuthUser)
      → user'.user_id ≡ user.user_id
      → user'.role ≡ user.role
      → user.role ≡ default_role py w user.email
      → StoredRole (saved_profile py w true claims body user' profiles) user
  saved-StoredRole claims body profiles user user' ids roles h = (
    record {
      email = user'.email;
      name = user'.name;
      role = user'.role;
      provider = provider_from_claims py claims (body_provider py w body);
    },
    rw (ids, lookup-insert user.user_id user.user_id _ profiles, str_eq_refl user.user_id) refl,
    roles ∙ h,
    h,
  )

  ended-StoredRole :
      (q : Qdrant) (claims : Entries Float) (body : Option SyncRequest) (profiles : Dict Profile)
      (b : Answer AuthUser) (user : AuthUser)
      → build_auth_user_from_claims py w claims end ≡ b
      → (or_claims py w claims (saved_user py w true q claims body profiles b)).1 ≡ returns user
      → StoredRole (or_claims py w claims (saved_user py w true q claims body profiles b)).0 user
  ended-StoredRole linked claims body profiles (raises e) user h r = absurd (cc r)
  ended-StoredRole unconfigured claims body profiles (raises e) user h r = absurd (cc r)
  ended-StoredRole unreachable claims body profiles (raises e) user h r = absurd (cc r)
  ended-StoredRole unconfigured claims body profiles (returns u) user h r = absurd (cc r)
  ended-StoredRole linked claims body profiles (returns u) user h r =
      let u' = named py w (body_name py w body) u in
      let (ids, roles, emails) = named-same (body_name py w body) u in
      let same : u' ≡ user = cc r in
      subst (StoredRole (saved_profile py w true claims body u' profiles)) same (
        saved-StoredRole claims body profiles u' u' refl refl
          (roles ∙ build-role claims u h ∙ sym (ap (default_role py w) emails)))
  ended-StoredRole unreachable claims body profiles (returns u) user h r =
      let u' = named py w (body_name py w body) u in
      let (ids, roles, emails) = named-same (body_name py w body) u in
      let same : u ≡ user = cc (sym h ∙ r) in
      subst (StoredRole (saved_profile py w true claims body u' profiles)) same
        (saved-StoredRole claims body profiles u u' ids roles (build-role claims u h))

  verified-StoredRole :
      (q : Qdrant) (body : Option SyncRequest) (profiles : Dict Profile)
      (o : Answer (Entries Float)) (user : AuthUser)
      → (verified_user py w true q body profiles o).1 ≡ returns user
      → StoredRole (verified_user py w true q body profiles o).0 user
  verified-StoredRole q body profiles (raises e) user r = absurd (cc r)
  verified-StoredRole q body profiles (returns claims) user r =
      ended-StoredRole q claims body profiles (build_auth_user_from_claims py w claims end) user
        refl r

  -- A request that is signed in while Firestore takes writes leaves the profile of its user with the
  -- role that the e-mail address gives, whatever role was stored there before.
  pub signed_in-StoredRole :
      (q : Qdrant) (body : Option SyncRequest) (authorization : Option String)
      (profiles : Dict Profile) (user : AuthUser)
      → (signed_in py w true q body authorization profiles).1 ≡ returns user
      → StoredRole (signed_in py w true q body authorization profiles).0 user
  unfolding signed_in
  signed_in-StoredRole q body authorization profiles user r =
      verified-StoredRole q body profiles
        (extract_bearer_token py authorization >>= verify_firebase_token py w) user r
