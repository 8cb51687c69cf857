-- ===== src/Edge/Iroh.antt =====
-- What the edge takes from the iroh crate and from serde_json: keys, signatures, addresses and
-- the bytes of a serialised value. These are parameters of the model.
use quackgis.Base.{◌≡◌, Bool, true, Eq, Bytes}

-- `PublicKey` (also `EndpointId`), `SecretKey`, `Signature` and the addresses of an endpoint.
-- A signature made with a secret key verifies under its public key on the same message.
pub record Iroh : Type 1 where
  pub PublicKey : Type 0
  pub SecretKey : Type 0
  pub Signature : Type 0
  pub Addresses : Type 0
  pub key_Eq : Eq PublicKey
  pub public : SecretKey → PublicKey
  pub sign : SecretKey → Bytes → Signature
  pub verify : PublicKey → Bytes → Signature → Bool
  pub verify-sign : (s : SecretKey) (m : Bytes) → verify (public s) m (sign s m) ≡ true

pub record EndpointAddr (i : Iroh) : Type 0 where
  pub id : i.PublicKey
  pub addrs : i.Addresses
