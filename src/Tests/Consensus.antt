-- ===== src/Tests/Consensus.antt =====
-- The theorems on src/poset/poset.go and src/poset/inmem_store.go at concrete inputs: a poset over the
-- store in memory, with the texts in the place of hashes and signatures kept as they are.
use gource.Prelude.{
  ℕ, ◌≡◌, refl, ◌⊎◌, String, true, false, [], ◌∷◌, some, ℤ, pos, negsuc, ◌≤ℤ◌, ◌≤◌, drop,
  format_int, arith, UpTo, lookup, int_eq, string_eq,
}
use gource.Common.Errors.{ok, err, new_store_err, key_not_found}
use gource.Common.Exec.{attempt, modify, pure, ◌>>=◌}
use gource.Peers.Peer.{Peer}
use gource.Peers.Registry.{Peers, new_peers, add_peer}
use gource.Poset.Event.{Event, BlockSignature}
use gource.Poset.Block.{Block, new_block}
use gource.Poset.RoundInfo.{RoundInfo, new_round_info, add_event, set_fame}
use gource.Poset.Lru.{unbounded}
use gource.Poset.Inmem.{InmemStore, new_inmem, get_event, set_event}
use gource.Poset.Inmem.Rounds.{set_round, get_round, set_block, get_block}
use gource.Poset.Inmem.RoundTrips.{set_round-get_round, set_block-get_block, set_event-get_event}
use gource.Poset.Inmem.AsStore.{inmem_store}
use gource.Poset.State.{Env, Codec, Poset, new_poset}
use gource.Poset.Insert.{insert_event}
use gource.Poset.Insert.Queues.{Inserted, insert_event_lem}
use gource.Poset.Divide.Queue.{Queues}
use gource.Poset.Fame.{decide_fame}
use gource.Poset.Fame.Flags.{Decided, decide_fame_lem}
use gource.Poset.Received.Rest.{Received}
use gource.Poset.Process.{process_decided_rounds}
use gource.Poset.Process.Progress.{Extends}
use gource.Poset.Process.Removal.{decided_front, process_decided_rounds_lem}
use gource.Poset.Signatures.{process_sig_pool}
use gource.Poset.Signatures.Anchors.{process_sig_pool-anchor}
use gource.Poset.Signatures.Pool.{process_sig_pool-sig_pool}

abbrev pub hash_of : Event → String
hash_of e = e.signature

abbrev codec : Codec
codec = record {
  event_hex = hash_of;
  verify_event = λ e. ok true;
  unmarshal_flag_table = λ bytes. ok [];
  marshal_flag_table = λ table. [];
  signature_before = λ a b. false;
  blocks = record { frame_hash = λ f. ok (1 ∷ []); verify_body = λ b s. ok true };
}

abbrev pub env : Env
env = record { store = inmem_store unbounded hash_of; lru = unbounded; codec = codec }

abbrev carol : Peer
carol = record { id = pos 3; net_addr = "c:1"; pub_key_hex = "0x0C"; used = pos 0 }

abbrev participants : Peers
participants = add_peer new_peers carol

-- The first event of the participant.
abbrev pub first : Event
first = record {
  body = record {
    transactions = some ((7 ∷ []) ∷ []);
    internal_transactions = [];
    self_parent = "Root3";
    other_parent = "";
    creator = 12 ∷ [];
    index = pos 0;
    block_signatures = [];
  };
  signature = "e0";
  flag_table = [];
  witness_proof = [];
  self_parent_index = negsuc 0;
  other_parent_creator_id = negsuc 0;
  other_parent_index = negsuc 0;
  creator_id = pos 3;
  topological_index = pos 0;
  lamport_timestamp = negsuc 0;
  round = negsuc 0;
  round_received = negsuc 0;
}

abbrev pub fresh : InmemStore unbounded
fresh = new_inmem unbounded hash_of participants 10

abbrev decided_round : RoundInfo
decided_round = set_fame (add_event new_round_info "e0" true) "e0" true

abbrev stored : InmemStore unbounded
stored = (set_round unbounded hash_of (pos 0) decided_round fresh).1

abbrev pub block : Block
block = new_block (pos 5) (pos 0) (1 ∷ []) ((7 ∷ []) ∷ [])

abbrev pub signature_of_five : BlockSignature
signature_of_five = record { validator = 12 ∷ []; index = pos 5; signature = "s" }

-- A poset with one event, two pending rounds, the first of them decided, and a signature of block 5.
abbrev pub poset : Poset env
poset = record (new_poset {env = env} participants (set_block unbounded hash_of block stored).1) {
  undetermined_events = "e0" ∷ [];
  pending_rounds =
      record { index = pos 0; decided = true } ∷ record { index = pos 1; decided = false } ∷ [];
  sig_pool = signature_of_five ∷ [];
}

insert_event_lem_example : Inserted poset first (insert_event first true poset)
insert_event_lem_example = insert_event_lem first true poset

decide_fame_lem_example : Decided 4 poset (decide_fame 4 poset)
decide_fame_lem_example = decide_fame_lem 4 poset

process_decided_rounds_lem_example :
    ((n : ℕ) × (n ≤ decided_front poset.pending_rounds)
      × ((process_decided_rounds 4 poset).1.pending_rounds ≡ drop n poset.pending_rounds))
    × UpTo poset.last_consensus_round (process_decided_rounds 4 poset).1.last_consensus_round
    × Extends poset.committed (process_decided_rounds 4 poset).1.committed
process_decided_rounds_lem_example = process_decided_rounds_lem 4 poset

process_sig_pool-anchor_example : UpTo poset.anchor_block (process_sig_pool poset).1.anchor_block
process_sig_pool-anchor_example = process_sig_pool-anchor poset

process_sig_pool-sig_pool_example : (process_sig_pool poset).1.sig_pool ≡ signature_of_five ∷ []
process_sig_pool-sig_pool_example =
    process_sig_pool-sig_pool poset (omega arith) ((5, refl, omega arith), tt)

set_round-get_round_example :
    ((get_round unbounded hash_of
        (pos 2)
        (set_round unbounded hash_of (pos 2) decided_round stored).1).0
      ≡ ok decided_round)
    × (pos 2 ≤ℤ (set_round unbounded hash_of (pos 2) decided_round stored).1.last_round)
    × (stored.last_round ≤ℤ (set_round unbounded hash_of (pos 2) decided_round stored).1.last_round)
    × ((j : ℤ)
        → (pos 2 ≡ j)
          ⊎ ((get_round unbounded hash_of j
                (set_round unbounded hash_of (pos 2) decided_round stored).1).0
              ≡ (get_round unbounded hash_of j stored).0)
          ⊎ ((get_round unbounded hash_of j
                (set_round unbounded hash_of (pos 2) decided_round stored).1).0
              ≡ err (new_store_err "RoundCache" key_not_found (format_int j))))
set_round-get_round_example = set_round-get_round unbounded hash_of (pos 2) decided_round stored

set_block-get_block_example :
    ((set_block unbounded hash_of block stored).0 ≡ ok tt)
    × ((get_block unbounded hash_of block.index (set_block unbounded hash_of block stored).1).0
        ≡ ok block)
    × (block.index ≤ℤ (set_block unbounded hash_of block stored).1.last_block)
    × (stored.last_block ≤ℤ (set_block unbounded hash_of block stored).1.last_block)
    × ((j : ℤ)
        → (block.index ≡ j)
          ⊎ ((get_block unbounded hash_of j (set_block unbounded hash_of block stored).1).0
              ≡ (get_block unbounded hash_of j stored).0)
          ⊎ ((get_block unbounded hash_of j (set_block unbounded hash_of block stored).1).0
              ≡ err (new_store_err "BlockCache" key_not_found (format_int j))))
set_block-get_block_example = set_block-get_block unbounded hash_of block stored

-- The same event again, over an event that the store has.
abbrev holding : InmemStore unbounded
holding = record fresh { event_cache = ("e0", first) ∷ [] }

set_event-get_event_example :
    ((get_event unbounded hash_of "e0" (set_event unbounded hash_of first holding).1).0 ≡ ok first)
    × ((x : String)
        → ("e0" ≡ x)
          ⊎ ((get_event unbounded hash_of x (set_event unbounded hash_of first holding).1).0
              ≡ (get_event unbounded hash_of x holding).0)
          ⊎ ((get_event unbounded hash_of x (set_event unbounded hash_of first holding).1).0
              ≡ err (new_store_err "EventCache" key_not_found x)))
unfolding set_event get_event attempt modify pure ◌>>=◌ lookup
set_event-get_event_example = set_event-get_event unbounded hash_of first holding refl
