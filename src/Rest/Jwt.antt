-- ===== src/Rest/Jwt.antt =====
-- The verification of a token (`JwtVerifier` of crates/quackgis-rest/src/main.rs). JSON, base64, the
-- HMAC, the clock and the secret file are parameters.
pub mod Authentic
use quackgis.Base.{
  ℕ, ◌*◌, Bool, true, false, not, ◌&&◌, ◌||◌, List, [], ◌∷◌, ◌++◌, Option, none, some, Result, ok,
  err, ◌>>=◌, ◌>>◌, reject, ltb, if◌then◌else◌, codes, any, contains, length, Bytes, utf8_len,
  saturating_add, Eq, nat_Eq, list_Eq,
}
use quackgis.Role.Model.{Name, name_eq}
use quackgis.Role.Config.Names.{is_empty, split_at}
use quackgis.Role.Catalog.{is_some}
use quackgis.Rest.Settings.{SettingError, valid_jwt_label, jwt_secret, invalid_label}

abbrev pub max_jwt_bytes : ℕ
max_jwt_bytes = 24576

abbrev pub max_jwt_claims_bytes : ℕ
max_jwt_claims_bytes = 16384

abbrev pub jwt_clock_skew_seconds : ℕ
jwt_clock_skew_seconds = 30

-- what the code uses of serde_json
pub record JsonLibrary : Type 1 where
  pub Value : Type 0
  pub Object : Type 0
  pub from_slice : Bytes → Option Value
  pub to_string : Object → Option Name
  pub as_object : Value → Option Object
  pub as_str : Value → Option Name
  pub as_u64 : Value → Option ℕ
  pub as_array : Value → Option (List Value)
  pub get : Object → Name → Option Value

-- `secret_file` is what reading the secret file gives, and `now` the seconds of the clock, which can
-- fail.
pub record Surroundings : Type 0 where
  pub decode : Name → Option Bytes
  pub hmac_verify : Bytes → Name → Bytes → Bool
  pub secret_file : Option Bytes
  pub now : Option ℕ

pub record JwtVerifier : Type 0 where
  pub issuer : Name
  pub audience : Name
  pub roles : List Name

pub record RequestIdentity : Type 0 where
  pub role : Name
  pub claims : Name

-- `Result<_, ()>`
abbrev pub Attempt : Type 0 → Type 0
Attempt A = Result (Unit {0}) A

-- `ok_or(())?`
abbrev pub required : {A : Type 0} → Option A → Attempt A
required none = err tt
required (some a) = ok a

-- `map_err(|_| ())?`
abbrev pub without_error : {A : Type 0} → Result SettingError A → Attempt A
without_error (err e) = err tt
without_error (ok a) = ok a

-- `JwtVerifier::secret`, which reads the file again for each token
unfoldable pub secret_in : Option Bytes → Attempt Bytes
secret_in none = err tt
secret_in (some bytes) = without_error (jwt_secret bytes)

-- `from_file`, once the file has been read
unfoldable pub from_file : Bytes → Name → Name → List Name → Result SettingError JwtVerifier
from_file secret issuer audience roles = do
  checked ← jwt_secret secret
  reject (not (valid_jwt_label issuer) || not (valid_jwt_label audience)) invalid_label
  ok (record { issuer = issuer; audience = audience; roles = roles })

abbrev pub three_parts : List Name → Attempt (Name × (Name × Name))
three_parts (a ∷ b ∷ c ∷ []) = ok (a, (b, c))
three_parts _ = err tt

abbrev pub signed_text : Name → Name → Name
signed_text header claims = header ++ (codes "." ++ claims)

module _ (json : JsonLibrary) where
  abbrev pub is_string : Option Name → Name → Bool
  is_string none expected = false
  is_string (some text) expected = name_eq text expected

  -- `claims.get(key).and_then(Value::as_str) == Some(expected)`
  abbrev pub has_text : Option (json.Value) → Name → Bool
  has_text none expected = false
  has_text (some value) expected = is_string (json.as_str value) expected

  abbrev pub is_jwt_type : Option (json.Value) → Bool
  is_jwt_type none = true
  is_jwt_type (some value) = is_string (json.as_str value) (codes "JWT")

  abbrev pub is_header : json.Object → Bool
  is_header header =
      has_text (json.get header (codes "alg")) (codes "HS256")
      && (is_jwt_type (json.get header (codes "typ"))
          && (not (is_some (json.get header (codes "crit")))
              && not (is_some (json.get header (codes "b64")))))

  abbrev pub among : Option (List (json.Value)) → Name → Bool
  among none expected = false
  among (some values) expected = any (λ value. is_string (json.as_str value) expected) values

  unfoldable pub valid_audience : Option (json.Value) → Name → Bool
  valid_audience none expected = false
  valid_audience (some value) expected =
      is_string (json.as_str value) expected || among (json.as_array value) expected

  abbrev pub number_of : Option (json.Value) → Option ℕ
  number_of none = none
  number_of (some value) = json.as_u64 value

  abbrev pub text_of : Option (json.Value) → Option Name
  text_of none = none
  text_of (some value) = json.as_str value

  -- the check of `nbf`, which may be missing
  abbrev pub check_not_before : ℕ → Option (json.Value) → Attempt (Unit {0})
  check_not_before now none = ok tt
  check_not_before now (some value) = do
    not_before ← required (json.as_u64 value)
    reject (ltb (saturating_add now jwt_clock_skew_seconds) not_before) tt

  -- `filter(|role| self.roles.contains(*role)).ok_or(())?`
  abbrev pub allowed_role : JwtVerifier → Option Name → Attempt Name
  allowed_role verifier none = err tt
  allowed_role verifier (some role) = if contains verifier.roles role then ok role else err tt

  module _ (around : Surroundings) where
    unfoldable pub decode_json_segment : Name → ℕ → Attempt (json.Value)
    decode_json_segment segment max_bytes = do
      reject (ltb (max_bytes * 2) (utf8_len segment)) tt
      bytes ← required (around.decode segment)
      reject (ltb max_bytes (length bytes)) tt
      required (json.from_slice bytes)

    -- the checks on the claims, once their signature is verified
    unfoldable pub check_claims : JwtVerifier → json.Object → Attempt RequestIdentity
    unfolding valid_audience
    check_claims verifier claims = do
      reject
          (not (has_text (json.get claims (codes "iss")) verifier.issuer)
            || not (valid_audience (json.get claims (codes "aud")) verifier.audience))
          tt
      now ← required around.now
      expires ← required (number_of (json.get claims (codes "exp")))
      reject (ltb (saturating_add expires jwt_clock_skew_seconds) now) tt
      check_not_before now (json.get claims (codes "nbf"))
      role ← allowed_role verifier (text_of (json.get claims (codes "role")))
      text ← required (json.to_string claims)
      reject (ltb max_jwt_claims_bytes (utf8_len text)) tt
      ok (record { role = role; claims = text })

    -- `JwtVerifier::verify`
    unfoldable pub verify : JwtVerifier → Name → Attempt RequestIdentity
    unfolding decode_json_segment check_claims secret_in
    verify verifier token = do
      reject (is_empty token || ltb max_jwt_bytes (utf8_len token)) tt
      parts ← three_parts (split_at b'.' token)
      header_value ← decode_json_segment parts.0 1024
      header ← required (json.as_object header_value)
      reject (not (is_header header)) tt
      signature ← required (around.decode parts.1.1)
      secret ← secret_in around.secret_file
      reject (not (around.hmac_verify secret (signed_text parts.0 parts.1.0) signature)) tt
      claims_value ← decode_json_segment parts.1.0 max_jwt_claims_bytes
      claims ← required (json.as_object claims_value)
      check_claims verifier claims
