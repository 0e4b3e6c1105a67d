-- ===== src/Poset/Wire.antt =====
-- The wire forms of src/poset/event.go and src/poset/block.go, in which ids and indexes stand for keys
-- and hashes; `NewEvent`; and `ReadWireInfo` of src/poset/poset.go. A nil slice of signatures and an
-- empty one are not told apart.
pub mod RoundTrip
use gource.Prelude.{
  not, ℕ, String, Bool, true, false, ◌&&◌, List, [], ◌∷◌, map, Option, none, some, ℤ, pos, leb_ℤ,
  eqb_ℤ, ltb_ℤ, Map, lookup, int_eq, string_eq, if◌then◌else◌, ◌==◌,
}
use gource.Common.Errors.{Error, Result, ok, err, message, is_error}
use gource.Common.Exec.{Exec, pure, raise, lift, gets, attempt, ◌>>=◌, ◌>>◌}
use gource.Peers.Peer.{Peer, decode_hex, skip_prefix}
use gource.Poset.Event.{
  Event, EventBody, BlockSignature, InternalTransaction, block_signatures, root_self_parent,
  lamport_timestamp_nil, round_nil,
}
use gource.Poset.Block.{RootEvent}
use gource.Poset.State.{Env, Poset, on_store}

pub record WireBlockSignature : Type 0 where
  pub index : ℤ
  pub signature : String

pub record WireBody : Type 0 where
  pub transactions : Option (List (List ℕ))
  pub internal_transactions : List InternalTransaction
  pub block_signatures : List WireBlockSignature
  pub self_parent_index : ℤ
  pub other_parent_creator_id : ℤ
  pub other_parent_index : ℤ
  pub creator_id : ℤ
  pub index : ℤ

pub record WireEvent : Type 0 where
  pub body : WireBody
  pub signature : String
  pub flag_table : List ℕ
  pub witness_proof : List String

abbrev pub signature_to_wire : BlockSignature → WireBlockSignature
signature_to_wire bs = record { index = bs.index; signature = bs.signature }

unfoldable pub wire_block_signatures : Event → List WireBlockSignature
wire_block_signatures e = map signature_to_wire (block_signatures e)

unfoldable pub to_wire : Event → WireEvent
unfolding wire_block_signatures
to_wire e = record {
  body = record {
    transactions = e.body.transactions;
    internal_transactions = e.body.internal_transactions;
    block_signatures = wire_block_signatures e;
    self_parent_index = e.self_parent_index;
    other_parent_creator_id = e.other_parent_creator_id;
    other_parent_index = e.other_parent_index;
    creator_id = e.creator_id;
    index = e.body.index;
  };
  signature = e.signature;
  flag_table = e.flag_table;
  witness_proof = e.witness_proof;
}

abbrev pub signature_of : List ℕ → WireBlockSignature → BlockSignature
signature_of validator bs = record {
  validator = validator;
  index = bs.index;
  signature = bs.signature;
}

-- `WireEvent.BlockSignatures`
unfoldable pub signatures_by : List ℕ → WireEvent → List BlockSignature
signatures_by validator we = map (signature_of validator) we.body.block_signatures

-- `NewEvent`: the wire information is zero until it is set, and the signature is empty.
unfoldable pub new_event :
    Option (List (List ℕ))
    → List InternalTransaction
    → List BlockSignature
    → String
    → String
    → List ℕ
    → ℤ
    → List ℕ
    → Event
new_event transactions internal_transactions block_signatures self_parent other_parent creator index
      flag_table =
    record {
      body = record {
        transactions = transactions;
        internal_transactions = internal_transactions;
        self_parent = self_parent;
        other_parent = other_parent;
        creator = creator;
        index = index;
        block_signatures = block_signatures;
      };
      signature = "";
      flag_table = flag_table;
      witness_proof = [];
      self_parent_index = pos 0;
      other_parent_creator_id = pos 0;
      other_parent_index = pos 0;
      creator_id = pos 0;
      topological_index = pos 0;
      lamport_timestamp = lamport_timestamp_nil;
      round = round_nil;
      round_received = round_nil;
    }

-- The event that `ReadWireInfo` builds from the wire event and the names that it has found.
unfoldable pub event_of_wire : WireEvent → List ℕ → String → String → Event
unfolding signatures_by
event_of_wire we creator self_parent other_parent = record {
  body = record {
    transactions = we.body.transactions;
    internal_transactions = we.body.internal_transactions;
    self_parent = self_parent;
    other_parent = other_parent;
    creator = creator;
    index = we.body.index;
    block_signatures = signatures_by creator we;
  };
  signature = we.signature;
  flag_table = we.flag_table;
  witness_proof = we.witness_proof;
  self_parent_index = we.body.self_parent_index;
  other_parent_creator_id = we.body.other_parent_creator_id;
  other_parent_index = we.body.other_parent_index;
  creator_id = we.body.creator_id;
  topological_index = pos 0;
  lamport_timestamp = lamport_timestamp_nil;
  round = round_nil;
  round_received = round_nil;
}

-- The loop through the other-parents that the root keeps.
unfoldable pub find_other : ℤ → ℤ → Map String RootEvent → Option String
find_other creator_id index [] = none
find_other creator_id index ((_, re) ∷ others) =
    if eqb_ℤ re.creator_id creator_id && eqb_ℤ re.index index
    then some re.hash
    else find_other creator_id index others

unfoldable pub some_or : {S A : Type 0} → Error → Option A → Exec S A
some_or e none = raise e
some_or e (some a) = pure a

is_nil : List ℕ → Bool
is_nil [] = true
is_nil (b ∷ bs) = false

module _ {env : Env} where
  -- `ById[id]`, or the error where it is nil.
  unfoldable pub known_peer : Error → ℤ → Exec (Poset env) Peer
  unfolding some_or
  known_peer e id = do p ← gets (λ s. lookup id s.participants.by_id); some_or e p

  unfoldable pub read_self_parent : Peer → WireEvent → Exec (Poset env) String
  read_self_parent creator we =
      if leb_ℤ (pos 0) we.body.self_parent_index
      then on_store (env.store.participant_event creator.pub_key_hex we.body.self_parent_index)
      else pure (root_self_parent we.body.creator_id)

  -- An other-parent that the store does not have is looked for in the root of the creator.
  unfoldable pub read_other_parent : Peer → WireEvent → Exec (Poset env) String
  unfolding some_or
  read_other_parent creator we = if ltb_ℤ we.body.other_parent_index (pos 0) then pure "" else do
    other ← known_peer (message "unknown participant") we.body.other_parent_creator_id
    attempt (on_store (env.store.participant_event other.pub_key_hex we.body.other_parent_index))
        λ res. elim res [
          | ok hash ↦ pure hash
          | err e ↦ if not (is_error e) then raise e else do
            root ← on_store (env.store.get_root creator.pub_key_hex)
            some_or (message "OtherParent not found")
                (find_other we.body.other_parent_creator_id we.body.other_parent_index root.others)
        ]

  unfoldable pub read_wire_info : WireEvent → Exec (Poset env) Event
  unfolding some_or is_nil
  read_wire_info we = do
    creator ← known_peer (message "unknown wevent.Body.CreatorID") we.body.creator_id
    creator_bytes ← some_or (message "encoding/hex") (decode_hex (skip_prefix creator.pub_key_hex))
    self_parent ← read_self_parent creator we
    other_parent ← read_other_parent creator we
    if is_nil we.flag_table
        then raise (message "flag table is null")
        else pure (event_of_wire we creator_bytes self_parent other_parent)
