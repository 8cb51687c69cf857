-- ===== src/Tests/Rest.antt =====
-- Runs of the gateway, and the theorems about it at concrete inputs.
use quackgis.Base.{
  not, err, ℕ, ◌≡◌, refl, false, ◌&&◌, List, [], ◌∷◌, Option, none, some, ok, codes, if◌then◌else◌,
  Bytes, pos, subst, if-cases,
}
use quackgis.Role.Model.{Name, name_eq}
use quackgis.Role.Config.Names.{validate_role_name}
use quackgis.Role.Config.Convert.Entries.{is_ok}
use quackgis.Rest.Settings.{
  invalid_entry, is_invalid_role, valid_identifier, parse_roles, jwt_secret, trim_ascii,
}
use quackgis.Rest.Settings.Roles.{valid_identifier-validate_role_name}
use quackgis.Rest.Jwt.{
  Attempt, JsonLibrary, Surroundings, JwtVerifier, RequestIdentity, decode_json_segment,
  valid_audience, check_claims, secret_in, verify,
}
use quackgis.Rest.Cache.{
  SchemaValidation, epochs, available, SchemaCacheEntry, DiscoveredSchema, Caches, entry_matches,
  served, stored, role_schema,
}
use quackgis.Rest.Cache.Current.{IsSound, IsCurrent, Answered, role_schema-IsCurrent}
use quackgis.Rest.Jwt.Authentic.{IsAuthentic, verify-IsAuthentic}

valid_identifier-validate_role_name_example :
    not (is_invalid_role (codes "reader")) ≡ is_ok (validate_role_name (codes "reader"))
valid_identifier-validate_role_name_example = valid_identifier-validate_role_name (codes "reader")

rejects_upper_case : parse_roles (codes "reader, Admin,") ≡ err invalid_entry
unfolding parse_roles valid_identifier
rejects_upper_case = refl

data Leaf : Type 0 where
  text : Name → Leaf
  number : ℕ → Leaf

data Json : Type 0 where
  leaf : Leaf → Json
  object : List (Name × Leaf) → Json

abbrev header_object : List (Name × Leaf)
header_object = (codes "alg", text (codes "HS256")) ∷ []

abbrev claims_object : List (Name × Leaf)
claims_object =
    (codes "iss", text (codes "issuer"))
    ∷ (codes "aud", text (codes "gateway"))
    ∷ (codes "exp", number 100)
    ∷ (codes "role", text (codes "reader"))
    ∷ []

abbrev from_text : Bytes → Option Json
from_text bytes =
    if name_eq bytes (codes "head")
    then some (object header_object)
    else if name_eq bytes (codes "body")
    then some (object claims_object)
    else none

abbrev object_of : Json → Option (List (Name × Leaf))
object_of (leaf l) = none
object_of (object o) = some o

abbrev text_in : Json → Option Name
text_in (leaf (text t)) = some t
text_in (leaf (number n)) = none
text_in (object o) = none

abbrev number_in : Json → Option ℕ
number_in (leaf (text t)) = none
number_in (leaf (number n)) = some n
number_in (object o) = none

abbrev entry_of : List (Name × Leaf) → Name → Option Json
entry_of [] key = none
entry_of (e ∷ es) key =
    let rest = entry_of es key in if name_eq e.0 key then some (leaf e.1) else rest

abbrev json : JsonLibrary
json = record {
  Value = Json;
  Object = List (Name × Leaf);
  from_slice = from_text;
  to_string = λ o. some (codes "body");
  as_object = object_of;
  as_str = text_in;
  as_u64 = number_in;
  as_array = λ v. none;
  get = entry_of;
}

abbrev around : Surroundings
around = record {
  decode = λ segment. some segment;
  hmac_verify = λ secret message signature.
      name_eq message (codes "head.body")
      && name_eq signature (codes "signed")
      && name_eq secret (codes "0123456789abcdef0123456789abcdef");
  secret_file = some (codes " 0123456789abcdef0123456789abcdef ");
  now = some 120;
}

abbrev verifier : JwtVerifier
verifier = record {
  issuer = codes "issuer";
  audience = codes "gateway";
  roles = codes "reader" ∷ [];
}

abbrev reader : RequestIdentity
reader = record { role = codes "reader"; claims = codes "body" }

verifies : verify json around verifier (codes "head.body.signed") ≡ ok reader
unfolding verify decode_json_segment check_claims valid_audience secret_in jwt_secret trim_ascii
verifies = refl

verify-IsAuthentic_example : IsAuthentic json around verifier (codes "head.body.signed") reader
verify-IsAuthentic_example =
    verify-IsAuthentic json around verifier (codes "head.body.signed") verifies

-- The schema is the version of the catalog at which it was found.
abbrev Version : Type 0
Version = SchemaValidation

abbrev AtVersion : Name → SchemaValidation → Version → Type 0
AtVersion role v schema = schema ≡ v

abbrev first_version : SchemaValidation
first_version = epochs (pos 1) (pos 1) 1

abbrev second_version : SchemaValidation
second_version = epochs (pos 2) (pos 1) 1

abbrev cached_entries : Caches Version
cached_entries key =
    if name_eq key (codes "reader")
    then some (record { role = codes "reader"; schema = first_version; validation = first_version })
    else none

abbrev found : DiscoveredSchema Version
found = record { schema = second_version; validation = second_version }

abbrev discovery : Attempt (DiscoveredSchema Version)
discovery = ok found

cached_entries-IsSound : IsSound AtVersion cached_entries
cached_entries-IsSound key entry =
    if-cases
      (λ (o : Option (SchemaCacheEntry Version)). o ≡ some entry → entry.schema ≡ entry.validation)
      (name_eq key (codes "reader"))
      (λ hit at.
        let e : record { role = codes "reader"; schema = first_version; validation = first_version }
            ≡ entry =
          cc at in
        subst (λ (x : SchemaCacheEntry Version). x.schema ≡ x.validation) e refl)
      (λ miss at. absurd (cc at))

rediscovers :
    (role_schema false
      (codes "reader")
      (ok (available second_version))
      discovery
      cached_entries
      cached_entries).1
    ≡ ok second_version
unfolding role_schema served stored entry_matches
rediscovers = refl

serves :
    (role_schema false
      (codes "reader")
      (ok (available first_version))
      discovery
      cached_entries
      cached_entries).1
    ≡ ok first_version
unfolding role_schema served stored entry_matches
serves = refl

found-AtVersion :
    (d : DiscoveredSchema Version)
    → discovery ≡ ok d
    → AtVersion (codes "reader") d.validation d.schema
found-AtVersion d h =
    let e : found ≡ d = cc h in
    subst (λ (x : DiscoveredSchema Version). x.schema ≡ x.validation) e refl

role_schema-IsCurrent_example :
    Answered AtVersion
      (IsCurrent AtVersion false (codes "reader") (ok (available second_version)) discovery)
      (role_schema false
        (codes "reader")
        (ok (available second_version))
        discovery
        cached_entries
        cached_entries)
role_schema-IsCurrent_example =
    role_schema-IsCurrent AtVersion false (codes "reader") (ok (available second_version)) discovery
      cached_entries cached_entries cached_entries-IsSound cached_entries-IsSound found-AtVersion
