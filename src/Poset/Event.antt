-- ===== src/Poset/Event.antt =====
-- The data of src/poset/event.go and of the messages that it is built on (event.proto). The caches
-- in `Message.Hex`, `Message.Hash` and `Message.Creator` only save work, and are not kept: `hex` and
-- `creator` compute what they hold.
use Prim.Native.Char.{Char}
use Prim.Native.String
use gource.Prelude.{
  ℕ, ◌/◌, ◌%◌, String, Bool, true, false, ◌&&◌, ◌||◌, List, [], ◌∷◌, ℤ, pos, negsuc, length, ltb,
  eqb, eqb_ℤ, ltb_ℤ, if◌then◌else◌, format_int, Option, none, some, string_eq,
}
use gource.Peers.Peer.{Peer}

pub data TransactionType : Type 0 where
  peer_add peer_remove : TransactionType

pub record InternalTransaction : Type 0 where
  pub type_of : TransactionType
  pub peer : Peer

pub record BlockSignature : Type 0 where
  pub validator : List ℕ
  pub index : ℤ
  pub signature : String

-- A nil slice of transactions is `none`: `IsLoaded` tells it from an empty one.
pub record EventBody : Type 0 where
  pub transactions : Option (List (List ℕ))
  pub internal_transactions : List InternalTransaction
  pub self_parent : String
  pub other_parent : String
  pub creator : List ℕ
  pub index : ℤ
  pub block_signatures : List BlockSignature

-- `Event`, whose one field is an `EventMessage`. `Parents` has two entries wherever the code builds
-- an event: they are the fields `self_parent` and `other_parent` of the body.
pub record Event : Type 0 where
  pub body : EventBody
  pub signature : String
  pub flag_table : List ℕ
  pub witness_proof : List String
  pub self_parent_index : ℤ
  pub other_parent_creator_id : ℤ
  pub other_parent_index : ℤ
  pub creator_id : ℤ
  pub topological_index : ℤ
  pub lamport_timestamp : ℤ
  pub round : ℤ
  pub round_received : ℤ

abbrev pub lamport_timestamp_nil : ℤ
lamport_timestamp_nil = negsuc 0

abbrev pub round_nil : ℤ
round_nil = negsuc 0

hex_char : ℕ → Char
hex_char d =
    if eqb d 0
    then "0"
    else if eqb d 1
    then "1"
    else if eqb d 2
    then "2"
    else if eqb d 3
    then "3"
    else if eqb d 4
    then "4"
    else if eqb d 5
    then "5"
    else if eqb d 6
    then "6"
    else if eqb d 7
    then "7"
    else if eqb d 8
    then "8"
    else if eqb d 9
    then "9"
    else if eqb d 10
    then "A"
    else if eqb d 11
    then "B"
    else if eqb d 12
    then "C"
    else if eqb d 13
    then "D"
    else if eqb d 14
    then "E"
    else "F"

hex_bytes : List ℕ → String
unfolding hex_char
hex_bytes [] = ""
hex_bytes (b ∷ bs) =
    String.◌∷◌ (hex_char (b / 16 % 16)) (String.◌∷◌ (hex_char (b % 16)) (hex_bytes bs))

-- fmt.Sprintf("0x%X", bytes)
unfoldable pub format_hex : List ℕ → String
unfolding hex_bytes
format_hex bytes = String.◌∷◌ "0" (String.◌∷◌ "x" (hex_bytes bytes))

unfoldable pub creator : Event → String
creator e = format_hex e.body.creator

abbrev pub self_parent : Event → String
self_parent e = e.body.self_parent

abbrev pub other_parent : Event → String
other_parent e = e.body.other_parent

abbrev pub items {ℓ} : {A : Type ℓ} → Option (List A) → List A
items none = []
items (some l) = l

abbrev pub transactions : Event → List (List ℕ)
transactions e = items e.body.transactions

abbrev pub index : Event → ℤ
index e = e.body.index

abbrev pub block_signatures : Event → List BlockSignature
block_signatures e = e.body.block_signatures

abbrev not_nil {ℓ} : {A : Type ℓ} → Option A → Bool
not_nil none = false
not_nil (some _) = true

-- A payload, or the first event of its creator.
unfoldable pub is_loaded : Event → Bool
is_loaded e =
    if eqb_ℤ e.body.index (pos 0)
    then true
    else not_nil e.body.transactions
      && (ltb 0 (length (transactions e)) || ltb 0 (length e.body.internal_transactions))

abbrev pub set_round : Event → ℤ → Event
set_round e r = record e { round = r }

abbrev pub set_lamport_timestamp : Event → ℤ → Event
set_lamport_timestamp e t = record e { lamport_timestamp = t }

abbrev pub set_round_received : Event → ℤ → Event
set_round_received e rr = record e { round_received = rr }

unfoldable pub get_round : Event → ℤ
get_round e = if ltb_ℤ e.round (pos 0) then round_nil else e.round

abbrev pub set_wire_info : Event → ℤ → ℤ → ℤ → ℤ → Event
set_wire_info e self_parent_index other_parent_creator_id other_parent_index creator_id = record e {
  self_parent_index = self_parent_index;
  other_parent_creator_id = other_parent_creator_id;
  other_parent_index = other_parent_index;
  creator_id = creator_id;
}

abbrev pub root_self_parent : ℤ → String
root_self_parent participant_id = String.◌++◌ "Root" (format_int participant_id)
