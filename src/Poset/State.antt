-- ===== src/Poset/State.antt =====
-- The state of src/poset/poset.go, over a store, the LRU caches and what the poset needs of protobuf,
-- SHA-256 and the elliptic curve. The graph of the participants is shared with the store and the core
-- by pointer, and none of the methods modelled here changes it.
use gource.Prelude.{
  ℕ, ◌+◌, ◌*◌, ◌/◌, String, Bool, true, false, List, [], Option, none, some, ℤ, pos, Map, lookup,
  int_eq, string_eq, Comparable, ◌==◌, ◌≡◌, ◌↔◌, arith, if◌then◌else◌,
}
use text.Mathlib.TextEquality.{eq_iff}
use gource.Common.Errors.{Result, panic}
use gource.Common.Exec.{Exec, pure, raise, gets, on, ◌>>=◌}
use gource.Peers.Peer.{Peer}
use gource.Peers.Registry.{Peers, len}
use gource.Poset.Event.{Event, BlockSignature}
use gource.Poset.Block.{Block, BlockCodec}
use gource.Poset.Lru.{Lru}
use gource.Poset.Store.{Store}

-- The key of the caches on pairs of events.
pub record Key : Type 0 where
  pub x : String
  pub y : String

abbrev pub same_key : Key → Key → Bool
same_key a b = if a.x == b.x then a.y == b.y else false

pub same_key_iff : (a b : Key) → (same_key a b ≡ true) ↔ (a ≡ b)
same_key_iff a b = ground (arith, eq_iff a.x b.x, eq_iff a.y b.y)

instance abbrev pub key_eq : Comparable Key
key_eq = record { test = same_key; test_iff = same_key_iff }

-- What lies outside the repository: the hash of an event, its signature, and the encoding of a flag
-- table. `signature_order` is the order of the first numbers of two signatures.
pub record Codec : Type 0 where
  pub event_hex : Event → String
  pub verify_event : Event → Result Bool
  pub unmarshal_flag_table : List ℕ → Result (Map String ℤ)
  pub marshal_flag_table : Map String ℤ → List ℕ
  pub signature_before : Event → Event → Bool
  pub blocks : BlockCodec

pub record Env : Type 1 where
  pub store : Store
  pub lru : Lru
  pub codec : Codec

pub record PendingRound : Type 0 where
  pub index : ℤ
  pub decided : Bool

-- The interface `Core`: the head and the id of the node that the poset belongs to.
pub record CoreView : Type 0 where
  pub head : String
  pub hex_id : String

module _ (env : Env) where
  pub record Poset : Type 0 where
    pub participants : Peers
    pub store : env.store.State
    pub undetermined_events : List String
    pub pending_rounds : List PendingRound
    pub last_consensus_round : Option ℤ
    pub first_consensus_round : Option ℤ
    pub anchor_block : Option ℤ
    pub sig_pool : List BlockSignature
    pub consensus_transactions : ℕ
    pub pending_loaded_events : ℤ
    -- what was sent to `commitCh`, oldest first
    pub committed : List Block
    pub topological_index : ℤ
    pub super_majority : ℕ
    pub trust_count : ℕ
    pub core : Option CoreView
    pub ancestor_cache : env.lru.Cache Key Bool
    pub self_ancestor_cache : env.lru.Cache Key Bool
    pub strongly_see_cache : env.lru.Cache Key Bool
    pub round_cache : env.lru.Cache String ℤ
    pub timestamp_cache : env.lru.Cache String ℤ

-- `2*n/3 + 1` and the ceiling of `n/3`.
unfoldable pub super_majority_of : ℕ → ℕ
super_majority_of n = 2 * n / 3 + 1

unfoldable pub trust_count_of : ℕ → ℕ
trust_count_of n = (n + 2) / 3

module _ {env : Env} where
  unfoldable pub new_poset : Peers → env.store.State → Poset env
  new_poset participants store = record {
    participants = participants;
    store = store;
    undetermined_events = [];
    pending_rounds = [];
    last_consensus_round = none;
    first_consensus_round = none;
    anchor_block = none;
    sig_pool = [];
    consensus_transactions = 0;
    pending_loaded_events = pos 0;
    committed = [];
    topological_index = pos 0;
    super_majority = super_majority_of (len participants);
    trust_count = trust_count_of (len participants);
    core = none;
    ancestor_cache = env.lru.new Key Bool (env.store.cache_size store);
    self_ancestor_cache = env.lru.new Key Bool (env.store.cache_size store);
    strongly_see_cache = env.lru.new Key Bool (env.store.cache_size store);
    round_cache = env.lru.new String ℤ (env.store.cache_size store);
    timestamp_cache = env.lru.new String ℤ (env.store.cache_size store);
  }

  -- A method of the store.
  unfoldable pub on_store : {A : Type 0} → Exec env.store.State A → Exec (Poset env) A
  unfolding on
  on_store m = on (λ s. s.store) (λ f s. record s { store = f }) m

  unfoldable pub or_panic : {A : Type 0} → Option A → Exec (Poset env) A
  or_panic none = raise panic
  or_panic (some a) = pure a

  -- `Participants.ById[id]` and `Participants.ByPubKey[key]`, where the code goes on to read a field.
  unfoldable pub peer_by_id : ℤ → Exec (Poset env) Peer
  unfolding or_panic
  peer_by_id id = do p ← gets (λ s. lookup id s.participants.by_id); or_panic p

  unfoldable pub peer_by_key : String → Exec (Poset env) Peer
  unfolding or_panic
  peer_by_key key = do p ← gets (λ s. lookup key s.participants.by_pub_key); or_panic p

  unfoldable pub set_last_consensus_round : ℤ → Poset env → Poset env
  set_last_consensus_round i s = record s {
    last_consensus_round = some i;
    first_consensus_round = elim s.first_consensus_round [ none ↦ some i | some f ↦ some f ];
  }

  unfoldable pub set_anchor_block : ℤ → Poset env → Poset env
  set_anchor_block i s = record s { anchor_block = some i }
