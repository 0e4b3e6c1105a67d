-- ===== src/Node/Signer.antt =====
-- The private key of a node (crypto/ecdsa, which is not part of the repository): a parameter, as the
-- public key and the signatures that are made with it.
use gource.Prelude.{ℕ, String, List}
use gource.Common.Errors.{Result}
use gource.Poset.Event.{EventBody}
use gource.Poset.Block.{Block}

pub record Signer : Type 0 where
  pub public_key : List ℕ
  pub sign_body : EventBody → Result String
  pub sign_block_body : Block → Result String
