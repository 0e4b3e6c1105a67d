-- ===== src/Tests/Restart.antt =====
-- The theorem on `Reset` at a frame with one event.
use gource.Prelude.{◌≡◌, refl, List, [], ◌∷◌, ◌++◌, none, some, ℤ, pos, length}
use gource.Common.Exec
use gource.Common.RollingIndex.Defs
use gource.Common.RollingIndexMap
use gource.Peers.Registry
use gource.Poset.Block
use gource.Poset.Event
use gource.Poset.EventsCache
use gource.Poset.Inmem
use gource.Poset.Inmem.Rounds
use gource.Poset.Insert
use gource.Poset.Reset
use gource.Poset.State
use gource.Common.Errors.{ok}
use gource.Poset.Event.{Event}
use gource.Poset.Block.{Frame, new_base_root}
use gource.Poset.Reset.{reset}
use gource.Poset.Reset.Base.{reset_lem, signatures_of}
use gource.Tests.Consensus.{env, first, poset, block, signature_of_five}

abbrev frame : Frame
frame = record { round = pos 0; roots = new_base_root (pos 3) ∷ []; events = first ∷ [] }

reset_works : (reset {env = env} block frame poset).0 ≡ ok tt
unfolding gource.Common.Exec.◌>>=◌ gource.Common.Exec.attempt gource.Common.Exec.for_each
    gource.Common.Exec.gets gource.Common.Exec.lift gource.Common.Exec.modify gource.Common.Exec.on
    gource.Common.Exec.pure gource.Common.Exec.raise gource.Poset.Reset.reset
    gource.Poset.Reset.root_map gource.Poset.Reset.clear gource.Poset.State.new_poset
    gource.Poset.State.on_store gource.Poset.State.or_panic gource.Poset.State.peer_by_key
    gource.Poset.State.set_last_consensus_round gource.Poset.State.super_majority_of
    gource.Poset.State.trust_count_of gource.Peers.Registry.add_peer
    gource.Peers.Registry.internal_sort gource.Peers.Registry.sort_by_id
    gource.Peers.Registry.add_peer_raw gource.Peers.Registry.new_peers
    gource.Peers.Registry.insert_by_id gource.Peers.Registry.len gource.Peers.Registry.with_id
    gource.Poset.Inmem.found gource.Poset.Inmem.new_inmem gource.Poset.Inmem.get_event
    gource.Poset.Inmem.set_event gource.Poset.Inmem.add_participant_event
    gource.Poset.Inmem.last_event_from gource.Poset.EventsCache.new_events_cache
    gource.Poset.EventsCache.participant_id gource.Poset.EventsCache.get
    gource.Poset.EventsCache.get_item gource.Poset.EventsCache.get_last
    gource.Poset.EventsCache.set_item gource.Common.RollingIndexMap.new_rolling_index_map
    gource.Common.RollingIndexMap.index_for gource.Poset.Block.new_block
    gource.Poset.Block.new_base_root gource.Poset.Block.new_base_root_event
    gource.Common.RollingIndex.Defs.new_rolling_index gource.Common.RollingIndex.Defs.skips
    gource.Common.RollingIndex.Defs.appends gource.Common.RollingIndex.Defs.make_room
    gource.Common.RollingIndex.Defs.roll gource.Common.RollingIndex.Defs.oldest_cached_index
    gource.Common.RollingIndex.Defs.replace gource.Poset.Event.creator gource.Poset.Event.format_hex
    gource.Poset.Event.is_loaded gource.Poset.Insert.admit_event gource.Poset.Insert.check_event
    gource.Poset.Insert.check_other_parent gource.Poset.Insert.check_self_parent
    gource.Poset.Insert.enqueue gource.Poset.Insert.insert_event gource.Common.Exec.labelled
    gource.Poset.Insert.number_event gource.Poset.Insert.store_event gource.Prelude.format_int
    gource.Prelude.lookup gource.Prelude.insert gource.Poset.Inmem.Rounds.reset
    gource.Poset.Inmem.Rounds.set_block gource.Poset.Inmem.Rounds.get_block
    gource.Poset.Inmem.Rounds.set_round gource.Poset.Inmem.Rounds.refuse_other
    gource.Poset.Inmem.Rounds.get_root gource.Common.RollingIndexMap.fresh_indexes
    gource.Common.RollingIndexMap.reset gource.Poset.EventsCache.reset
    gource.Common.RollingIndexMap.set_item gource.Common.RollingIndexMap.get_last
    gource.Common.RollingIndex.Defs.set_item gource.Prelude.add64 gource.Prelude.sub64
    gource.Peers.Registry.to_id_slice
reset_works = refl

reset_lem_example :
    ((reset {env = env} block frame poset).1.last_consensus_round ≡ some (pos 0))
    × ((reset {env = env} block frame poset).1.pending_rounds ≡ [])
    × ((reset {env = env} block frame poset).1.anchor_block ≡ none)
    × (length (reset {env = env} block frame poset).1.undetermined_events ≡ 1)
    × ((reset {env = env} block frame poset).1.sig_pool
        ≡ signature_of_five ∷ signatures_of (first ∷ []))
unfolding gource.Poset.Block.new_block
reset_lem_example = reset_lem block frame poset reset_works
