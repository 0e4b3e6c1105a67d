-- ===== src/Poset/Block.antt =====
-- src/poset/block.go: blocks and their signatures. Frames and roots are those of frame.go and root.go.
use gource.Prelude.{
  ℕ, String, Bool, List, [], ◌∷◌, ◌++◌, map, ℤ, pos, negsuc, Map, lookup, insert, string_eq, Option,
  none, some,
}
use gource.Peers.Peer.{decode_hex, skip_prefix}
use gource.Common.Errors.{Result, ok, err, message, ◌>>=◌}
use gource.Poset.Event.{Event, BlockSignature, format_hex, transactions, root_self_parent}

pub record RootEvent : Type 0 where
  pub hash : String
  pub creator_id : ℤ
  pub index : ℤ
  pub lamport_timestamp : ℤ
  pub round : ℤ

pub record Root : Type 0 where
  pub next_round : ℤ
  pub self_parent : RootEvent
  pub others : Map String RootEvent

unfoldable pub new_base_root_event : ℤ → RootEvent
new_base_root_event creator_id = record {
  hash = root_self_parent creator_id;
  creator_id = creator_id;
  index = negsuc 0;
  lamport_timestamp = negsuc 0;
  round = negsuc 0;
}

unfoldable pub new_base_root : ℤ → Root
unfolding new_base_root_event
new_base_root creator_id = record {
  next_round = pos 0;
  self_parent = new_base_root_event creator_id;
  others = [];
}

pub record Frame : Type 0 where
  pub round : ℤ
  pub roots : List Root
  pub events : List Event

pub record Block : Type 0 where
  pub index : ℤ
  pub round_received : ℤ
  pub transactions : List (List ℕ)
  pub signatures : Map String String
  pub state_hash : List ℕ
  pub frame_hash : List ℕ

-- What the blocks need of protobuf and of the elliptic curve: the hash of a frame, and whether a
-- signature is one of the block's body by the key.
pub record BlockCodec : Type 0 where
  pub frame_hash : Frame → Result (List ℕ)
  pub verify_body : Block → BlockSignature → Result Bool

unfoldable pub new_block : ℤ → ℤ → List ℕ → List (List ℕ) → Block
new_block block_index round_received frame_hash txs = record {
  index = block_index;
  round_received = round_received;
  transactions = txs;
  signatures = [];
  state_hash = [];
  frame_hash = frame_hash;
}

frame_transactions : List Event → List (List ℕ)
frame_transactions [] = []
frame_transactions (e ∷ es) = transactions e ++ frame_transactions es

unfoldable pub new_block_from_frame : BlockCodec → ℤ → Frame → Result Block
unfolding new_block frame_transactions
new_block_from_frame codec block_index frame = do
  hash ← codec.frame_hash frame
  ok (new_block block_index frame.round hash (frame_transactions frame.events))

unfoldable pub append_transactions : Block → List (List ℕ) → Block
append_transactions b txs = record b { transactions = b.transactions ++ txs }

abbrev pub validator_hex : BlockSignature → String
validator_hex bs = format_hex bs.validator

abbrev pub bytes_or_nil : Option (List ℕ) → List ℕ
bytes_or_nil none = []
bytes_or_nil (some bytes) = bytes

-- A signature of the block's map, with its validator's key decoded; an undecodable key is nil.
abbrev pub block_signature : Block → String → String → BlockSignature
block_signature b validator sig = record {
  validator = bytes_or_nil (decode_hex (skip_prefix validator));
  index = b.index;
  signature = sig;
}

unfoldable pub get_block_signatures : Block → List BlockSignature
get_block_signatures b = map (λ e. block_signature b e.0 e.1) b.signatures

unfoldable pub get_signature : Block → String → Result BlockSignature
get_signature b validator = elim (lookup validator b.signatures) [
  | none ↦ err (message "signature not found")
  | some sig ↦ ok (block_signature b validator sig)
]

unfoldable pub set_signature : Block → BlockSignature → Block
set_signature b bs = record b { signatures = insert (validator_hex bs) bs.signature b.signatures }
