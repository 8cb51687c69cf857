-- ===== src/Rest/Jwt/Authentic.antt =====
-- What a verified token shows (crates/quackgis-rest/src/main.rs).
use quackgis.Base.{
  ℕ, ◌+◌, ◌≤◌, ◌≡◌, refl, inl, inr, Bool, true, false, not, ◌||◌, List, [], ◌∷◌, Option, none, some,
  Result, ok, err, arith, ltb, codes, contains, Bytes, utf8_len, saturating_add, nat_Eq, list_Eq,
  >>=-eq-ok, reject-then, returned, Bool-cases, ||-false,
}
use quackgis.Role.Model.{Name}
use quackgis.Role.Config.Names.{is_empty, split_at}
use quackgis.Rest.Settings.{SettingError, jwt_secret}
use quackgis.Rest.Jwt.{
  without_error, max_jwt_bytes, max_jwt_claims_bytes, jwt_clock_skew_seconds, JsonLibrary,
  Surroundings, JwtVerifier, RequestIdentity, required, three_parts, signed_text, has_text,
  is_header, valid_audience, number_of, text_of, check_not_before, allowed_role,
  decode_json_segment, check_claims, secret_in, verify,
}

required-eq-ok : {A : Type 0} (o : Option A) {a : A} → required o ≡ ok a → o ≡ some a
required-eq-ok none h = absurd (cc h)
required-eq-ok (some b) {a} h = let e : b ≡ a = cc h in cc e

without_error-eq-ok :
    {A : Type 0} (r : Result SettingError A) {a : A} → without_error r ≡ ok a → r ≡ ok a
without_error-eq-ok (err e) h = absurd (cc h)
without_error-eq-ok (ok b) {a} h = let e : b ≡ a = cc h in cc e

secret_in-eq-ok :
    (file : Option Bytes) {secret : Bytes}
    → secret_in file ≡ ok secret
    → (content : Bytes) × ((file ≡ some content) × (jwt_secret content ≡ ok secret))
unfolding secret_in
secret_in-eq-ok none h = absurd (cc h)
secret_in-eq-ok (some bytes) h = (bytes, (refl, without_error-eq-ok (jwt_secret bytes) h))

module _ (json : JsonLibrary) (around : Surroundings) (verifier : JwtVerifier) where
  -- Claims of the issuer for the audience, in force now, with a role that the verifier allows.
  pub record IsClaims (claims : json.Object) (identity : RequestIdentity) : Type 0 where
    pub issued : has_text json (json.get claims (codes "iss")) verifier.issuer ≡ true
    pub intended : valid_audience json (json.get claims (codes "aud")) verifier.audience ≡ true
    pub now : ℕ
    pub clock : around.now ≡ some now
    pub expires : ℕ
    pub expiry : number_of json (json.get claims (codes "exp")) ≡ some expires
    pub in_force : now ≤ expires + jwt_clock_skew_seconds
    pub started : check_not_before json now (json.get claims (codes "nbf")) ≡ ok tt
    pub role : text_of json (json.get claims (codes "role")) ≡ some identity.role
    pub allowed : contains verifier.roles identity.role ≡ true
    pub text : json.to_string claims ≡ some identity.claims
    pub bounded : utf8_len identity.claims ≤ max_jwt_claims_bytes

  -- A token of three parts: an encoded header, encoded claims, and a signature of both with the secret
  -- in the file.
  pub record IsAuthentic (token : Name) (identity : RequestIdentity) : Type 0 where
    pub header : Name
    pub claims : Name
    pub signature : Name
    pub parts : split_at b'.' token ≡ header ∷ claims ∷ signature ∷ []
    pub header_value : json.Value
    pub header_decoded : decode_json_segment json around header 1024 ≡ ok header_value
    pub header_object : json.Object
    pub header_is_object : json.as_object header_value ≡ some header_object
    pub header_checked : is_header json header_object ≡ true
    pub secret : Bytes
    pub content : Bytes
    pub read : around.secret_file ≡ some content
    pub secret_checked : jwt_secret content ≡ ok secret
    pub signature_bytes : Bytes
    pub decoded : around.decode signature ≡ some signature_bytes
    pub signed : around.hmac_verify secret (signed_text header claims) signature_bytes ≡ true
    pub claims_value : json.Value
    pub claims_decoded :
        decode_json_segment json around claims max_jwt_claims_bytes ≡ ok claims_value
    pub claims_object : json.Object
    pub is_object : json.as_object claims_value ≡ some claims_object
    pub checked : IsClaims claims_object identity

  not-false : (b : Bool) → not b ≡ false → b ≡ true
  not-false b h = ground (arith, h)

  in_force_lem : (e s now : ℕ) → ltb (saturating_add e s) now ≡ false → now ≤ e + s
  in_force_lem e s now h = ground (arith, h)

  allowed_role-eq-ok :
      (o : Option Name) {role : Name}
      → allowed_role json verifier o ≡ ok role
      → (o ≡ some role) × (contains verifier.roles role ≡ true)
  allowed_role-eq-ok none h = absurd (cc h)
  allowed_role-eq-ok (some r) {role} h = elim (Bool-cases (contains verifier.roles r)) [
    | inl known ↦ let e : r ≡ role = cc (rw known at h) in (cc e, rw e at known)
    | inr unknown ↦ absurd (cc (rw unknown at h))
  ]

  check_claims-IsClaims :
      (claims : json.Object) {identity : RequestIdentity}
      → check_claims json around verifier claims ≡ ok identity
      → IsClaims claims identity
  unfolding check_claims
  check_claims-IsClaims claims h =
      let (issuer, h1) =
        reject-then
          (not (has_text json (json.get claims (codes "iss")) verifier.issuer)
            || not (valid_audience json (json.get claims (codes "aud")) verifier.audience))
          _ _ h in
      let (issued, intended) = ||-false _ _ issuer in
      let (now, clock, h2) = >>=-eq-ok (required around.now) _ h1 in
      let (expires, expiry, h3) =
        >>=-eq-ok (required (number_of json (json.get claims (codes "exp")))) _ h2 in
      let (alive, h4) =
        reject-then (ltb (saturating_add expires jwt_clock_skew_seconds) now) _ _ h3 in
      let (_, started, h5) =
        >>=-eq-ok (check_not_before json now (json.get claims (codes "nbf"))) _ h4 in
      let (role, named, h6) =
        >>=-eq-ok (allowed_role json verifier (text_of json (json.get claims (codes "role")))) _
          h5 in
      let (text, written, h7) = >>=-eq-ok (required (json.to_string claims)) _ h6 in
      let (short, h8) = reject-then (ltb max_jwt_claims_bytes (utf8_len text)) _ _ h7 in
      let r = allowed_role-eq-ok (text_of json (json.get claims (codes "role"))) named in
      returned (IsClaims claims) (record { role = role; claims = text }) h8
        (record {
          issued = not-false _ issued;
          intended = not-false _ intended;
          now = now;
          clock = required-eq-ok around.now clock;
          expires = expires;
          expiry = required-eq-ok _ expiry;
          in_force = in_force_lem expires jwt_clock_skew_seconds now alive;
          started = started;
          role = r.0;
          allowed = r.1;
          text = required-eq-ok (json.to_string claims) written;
          bounded = ground (arith, short);
        })

  three_parts-eq-ok :
      (parts : List Name) {p : Name × (Name × Name)}
      → three_parts parts ≡ ok p
      → parts ≡ p.0 ∷ p.1.0 ∷ p.1.1 ∷ []
  three_parts-eq-ok [] h = absurd (cc h)
  three_parts-eq-ok (a ∷ []) h = absurd (cc h)
  three_parts-eq-ok (a ∷ b ∷ []) h = absurd (cc h)
  three_parts-eq-ok (a ∷ b ∷ c ∷ []) h =
      returned (λ p. a ∷ b ∷ c ∷ [] ≡ p.0 ∷ p.1.0 ∷ p.1.1 ∷ []) (a, (b, c)) h refl
  three_parts-eq-ok (a ∷ b ∷ c ∷ d ∷ rest) h = absurd (cc h)

  -- A token is accepted only when the secret signs its first two parts, the header that the first
  -- encodes asks for HS256, and the claims that the second encodes are of the issuer, for the
  -- audience, not expired, already in force and for a role that the verifier allows, which is the role
  -- of the identity.
  pub verify-IsAuthentic :
      (token : Name) {identity : RequestIdentity}
      → verify json around verifier token ≡ ok identity
      → IsAuthentic token identity
  unfolding verify
  verify-IsAuthentic token h =
      let (_, h1) = reject-then (is_empty token || ltb max_jwt_bytes (utf8_len token)) _ _ h in
      let (parts, split, h2) = >>=-eq-ok (three_parts (split_at b'.' token)) _ h1 in
      let (header_value, header_decoded, h3) =
        >>=-eq-ok (decode_json_segment json around parts.0 1024) _ h2 in
      let (header, header_is_object, h4) =
        >>=-eq-ok (required (json.as_object header_value)) _ h3 in
      let (header_ok, h5) = reject-then (not (is_header json header)) _ _ h4 in
      let (signature, decoded, h6) = >>=-eq-ok (required (around.decode parts.1.1)) _ h5 in
      let (secret, read, h7) = >>=-eq-ok (secret_in around.secret_file) _ h6 in
      let (content, (found, valid)) = secret_in-eq-ok around.secret_file read in
      let (signed, h8) =
        reject-then (not (around.hmac_verify secret (signed_text parts.0 parts.1.0) signature)) _ _
          h7 in
      let (claims_value, claims_ok, h9) =
        >>=-eq-ok (decode_json_segment json around parts.1.0 max_jwt_claims_bytes) _ h8 in
      let (claims, object, h10) = >>=-eq-ok (required (json.as_object claims_value)) _ h9 in
      record {
        header = parts.0;
        claims = parts.1.0;
        signature = parts.1.1;
        parts = three_parts-eq-ok (split_at b'.' token) split;
        header_value = header_value;
        header_decoded = header_decoded;
        header_object = header;
        header_is_object = required-eq-ok (json.as_object header_value) header_is_object;
        header_checked = not-false _ header_ok;
        secret = secret;
        content = content;
        read = found;
        secret_checked = valid;
        signature_bytes = signature;
        decoded = required-eq-ok (around.decode parts.1.1) decoded;
        signed = not-false _ signed;
        claims_value = claims_value;
        claims_decoded = claims_ok;
        claims_object = claims;
        is_object = required-eq-ok (json.as_object claims_value) object;
        checked = check_claims-IsClaims claims h10;
      }
