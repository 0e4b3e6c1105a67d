-- ===== src/Tests/Frames.antt =====
-- The theorem on the frame that `GetFrame` creates, at a round that received two events.
use mathlib.Core.List.{Perm}
use gource.Common.Sort.{IsSortedBy}
use gource.Prelude.{◌≡◌, refl, Bool, true, false, List, [], ◌∷◌, none, some, ℤ, pos, length}
use gource.Common.Exec
use gource.Common.RollingIndex.Defs
use gource.Common.RollingIndexMap
use gource.Common.Sort
use gource.Peers.Registry
use gource.Poset.Block
use gource.Poset.Event
use gource.Poset.EventsCache
use gource.Poset.Frames
use gource.Poset.Graph
use gource.Poset.Inmem
use gource.Poset.Inmem.Rounds
use gource.Poset.Insert
use gource.Poset.Reset
use gource.Poset.RoundInfo
use gource.Poset.Rounds as round_defs
use gource.Poset.State
use gource.Prelude
use gource.Common.Errors.{ok}
use gource.Poset.Event.{Event}
use gource.Poset.RoundInfo.{RoundInfo, consensus_events, undefined, yea, new_round_info}
use gource.Poset.Lru.{unbounded}
use gource.Poset.Inmem.{InmemStore}
use gource.Poset.Inmem.Rounds.{set_round, get_round}
use gource.Poset.State.{Poset, on_store}
use gource.Poset.Block.{Frame, new_base_root}
use gource.Poset.Frames.{compute_frame, events_of}
use gource.Poset.Frames.Order.{compute_frame_lem}
use gource.Tests.Consensus.{env, first, fresh, poset, hash_of}

abbrev second : Event
second = record first {
  body = record first.body { self_parent = "e0"; index = pos 1 };
  signature = "e1";
  lamport_timestamp = pos 1;
}

abbrev received : RoundInfo
received = record new_round_info {
  events =
      ("e1", record { consensus = true; witness = false; famous = undefined })
      ∷ ("e0", record { consensus = true; witness = true; famous = yea })
      ∷ [];
}

abbrev both : InmemStore unbounded
both = record fresh {
  event_cache = ("e0", record first { lamport_timestamp = pos 0 }) ∷ ("e1", second) ∷ [];
}

abbrev holder : Poset env
holder = record poset { store = (set_round unbounded hash_of (pos 1) received both).1 }

abbrev frame : Frame
frame = record {
  round = pos 1;
  roots = new_base_root (pos 3) ∷ [];
  events = record first { lamport_timestamp = pos 0 } ∷ second ∷ [];
}

compute_frame_works : (compute_frame 6 (pos 1) holder).0 ≡ ok frame
unfolding gource.Common.Exec.◌>>=◌ gource.Common.Exec.attempt gource.Common.Exec.for_each
    gource.Common.Exec.gets gource.Common.Exec.lift gource.Common.Exec.modify gource.Common.Exec.on
    gource.Common.Exec.pure gource.Common.Exec.raise gource.Poset.Reset.reset
    gource.Poset.Reset.root_map gource.Poset.Reset.clear gource.Poset.State.new_poset
    gource.Poset.State.on_store gource.Poset.State.or_panic gource.Poset.State.peer_by_key
    gource.Poset.State.set_last_consensus_round gource.Poset.State.super_majority_of
    gource.Poset.State.trust_count_of gource.Peers.Registry.add_peer
    gource.Peers.Registry.internal_sort gource.Peers.Registry.sort_by_id
    gource.Peers.Registry.add_peer_raw gource.Peers.Registry.new_peers
    gource.Peers.Registry.insert_by_id gource.Peers.Registry.len gource.Peers.Registry.with_id
    gource.Poset.Inmem.found gource.Poset.Inmem.new_inmem gource.Poset.Inmem.get_event
    gource.Poset.Inmem.set_event gource.Poset.Inmem.add_participant_event
    gource.Poset.Inmem.last_event_from gource.Poset.EventsCache.new_events_cache
    gource.Poset.EventsCache.participant_id gource.Poset.EventsCache.get
    gource.Poset.EventsCache.get_item gource.Poset.EventsCache.get_last
    gource.Poset.EventsCache.set_item gource.Common.RollingIndexMap.new_rolling_index_map
    gource.Common.RollingIndexMap.index_for gource.Poset.Block.new_block
    gource.Poset.Block.new_base_root gource.Poset.Block.new_base_root_event
    gource.Common.RollingIndex.Defs.new_rolling_index gource.Common.RollingIndex.Defs.skips
    gource.Common.RollingIndex.Defs.appends gource.Common.RollingIndex.Defs.make_room
    gource.Common.RollingIndex.Defs.roll gource.Common.RollingIndex.Defs.oldest_cached_index
    gource.Common.RollingIndex.Defs.replace gource.Poset.Event.creator gource.Poset.Event.format_hex
    gource.Poset.Event.is_loaded gource.Poset.Insert.admit_event gource.Poset.Insert.check_event
    gource.Poset.Insert.check_other_parent gource.Poset.Insert.check_self_parent
    gource.Poset.Insert.enqueue gource.Poset.Insert.insert_event gource.Common.Exec.labelled
    gource.Poset.Insert.number_event gource.Poset.Insert.store_event gource.Prelude.format_int
    gource.Prelude.lookup gource.Prelude.insert gource.Poset.Inmem.Rounds.reset
    gource.Poset.Inmem.Rounds.set_block gource.Poset.Inmem.Rounds.get_block
    gource.Poset.Inmem.Rounds.set_round gource.Poset.Inmem.Rounds.refuse_other
    gource.Poset.Inmem.Rounds.get_root gource.Common.RollingIndexMap.fresh_indexes
    gource.Common.RollingIndexMap.reset gource.Poset.EventsCache.reset
    gource.Common.RollingIndexMap.set_item gource.Common.RollingIndexMap.get_last
    gource.Common.RollingIndex.Defs.set_item gource.Prelude.add64 gource.Prelude.sub64
    gource.Peers.Registry.to_id_slice gource.Poset.Frames.less gource.Poset.Frames.sort_by_time
    gource.Poset.Frames.has gource.Poset.Frames.kept_other
    gource.Poset.Frames.create_self_parent_root_event
    gource.Poset.Frames.create_other_parent_root_event gource.Poset.Frames.create_root
    gource.Poset.Frames.roots_of_events gource.Poset.Frames.last_root
    gource.Poset.Frames.roots_of_others gource.Poset.Frames.keep_other_parent
    gource.Poset.Frames.keep_other_parents gource.Poset.Frames.events_of
    gource.Poset.Frames.order_roots gource.Poset.Frames.compute_frame gource.Common.Sort.insert_by
    gource.Common.Sort.sort_by gource.Poset.RoundInfo.consensus_events
    gource.Peers.Registry.to_pub_key_slice round_defs.in_root round_defs.flags_or_nil
    round_defs.count_seen round_defs.count_flags round_defs.is_seen round_defs.count_roots
    round_defs.enough_roots round_defs.round_by_proofs round_defs.round_by_other
    round_defs.other_round round_defs.round_by_parents round_defs.round_of_event round_defs.round2
    round_defs.round round_defs.witness round_defs.round_received gource.Poset.Graph.with_other
    gource.Poset.Graph.root_timestamp gource.Poset.Graph.cache_get gource.Poset.Graph.cache_add
    gource.Poset.Graph.memo gource.Poset.Graph.memo_unless gource.Poset.Graph.roots_or_nil
    gource.Poset.Graph.other_timestamp gource.Poset.Graph.self_timestamp
    gource.Poset.Graph.event_timestamp gource.Poset.Graph.lamport_timestamp2
    gource.Poset.Graph.lamport_timestamp gource.Poset.Graph.lamport_timestamp_diff
    gource.Poset.RoundInfo.add_event gource.Poset.RoundInfo.set_consensus_event
    gource.Poset.RoundInfo.set_fame gource.Poset.RoundInfo.every gource.Poset.RoundInfo.keys_where
    gource.Poset.RoundInfo.witnesses_decided gource.Poset.RoundInfo.witnesses
    gource.Poset.RoundInfo.round_events gource.Poset.RoundInfo.famous_witnesses
    gource.Poset.RoundInfo.is_decided gource.Poset.RoundInfo.equal_events
    gource.Poset.RoundInfo.entries_in gource.Poset.RoundInfo.equals
    gource.Poset.Inmem.Rounds.consensus_events gource.Poset.Inmem.Rounds.consensus_events_count
    gource.Poset.Inmem.Rounds.add_consensus_event gource.Poset.Inmem.Rounds.get_round
    gource.Poset.Inmem.Rounds.last_round gource.Poset.Inmem.Rounds.round_witnesses
    gource.Poset.Inmem.Rounds.round_events gource.Poset.Inmem.Rounds.last_block_index
    gource.Poset.Inmem.Rounds.get_frame gource.Poset.Inmem.Rounds.set_frame
    Inmem.roots_by_self_parent
compute_frame_works = refl

compute_frame_lem_example :
    (info : RoundInfo) × ((get_round unbounded hash_of (pos 1) holder.store).0 ≡ ok info)
    × (unsorted : List Event) × ((events_of {env = env}
          (consensus_events info)
          (on_store {env = env} (get_round unbounded hash_of (pos 1)) holder).1).0
        ≡ ok unsorted)
    × Perm frame.events unsorted
    × IsSortedBy (λ (e : Event). e.lamport_timestamp) frame.events
    × (frame.round ≡ pos 1)
    × (length frame.roots ≡ 1)
unfolding gource.Poset.State.new_poset gource.Peers.Registry.add_peer
    gource.Peers.Registry.internal_sort gource.Peers.Registry.sort_by_id
    gource.Peers.Registry.add_peer_raw gource.Prelude.insert gource.Peers.Registry.new_peers
compute_frame_lem_example = compute_frame_lem 6 (pos 1) frame holder compute_frame_works
