-- ===== src/Tests/Wire.antt =====
-- The theorems on the exchange of events at concrete inputs: wire forms, flag tables, and what another
-- node lacks.
use gource.Prelude.{
  ◌≡◌, ◌≢◌, refl, ◌<◌, ◌^◌, ◌<ℤ◌, ◌-◌, ◌↔◌, inl, inr, String, true, List, [], ◌∷◌, some, ℤ, pos,
  negsuc, Map, arith, lookup, insert, int_eq, string_eq, format_int,
}
use mathlib.Core.List.{Perm}
use gource.Common.Errors.{ok}
use gource.Peers.Peer.{Peer, decode_hex, skip_prefix}
use gource.Peers.Registry.{Peers}
use gource.Poset.Event.{Event}
use gource.Poset.Wire.{to_wire, read_wire_info}
use gource.Poset.Wire.RoundTrip.{HasNames, as_received, read_wire_info-to_wire}
use gource.Poset.Lru.{unbounded}
use gource.Poset.Inmem.{InmemStore}
use gource.Poset.State.{Env, Codec, Poset}
use gource.Poset.FlagTable.{FlagTable, merge_flag_table, flag_of}
use gource.Poset.FlagTable.Merge.{merged, merge_flag_table_lem}
use gource.Node.Core.{Core, known_events}
use gource.Node.Core.Diff.{over_sync_limit, event_diff, collect_unknown}
use gource.Node.Core.Diff.Limit.{gap, lacking, uncounted, over_sync_limit_iff}
use gource.Node.Core.Diff.Order.{IsTopological, Collected, event_diff_lem}
use gource.Tests.Consensus.{env, first, poset}
use gource.Tests.Node.{core}

-- An encoding that gives every table of bytes the same entries.
abbrev tables : Codec
tables = record env.codec { unmarshal_flag_table = λ bytes. ok (("x", pos 0) ∷ ("y", pos 1) ∷ []) }

merge_flag_table_lem_example :
    (t : FlagTable) × (merge_flag_table tables first (("x", pos 1) ∷ ("z", pos 1) ∷ []) ≡ ok t)
    × ((j : String)
        → flag_of j t
          ≡ merged
              (flag_of j (("x", pos 0) ∷ ("y", pos 1) ∷ []))
              (flag_of j (("x", pos 1) ∷ ("z", pos 1) ∷ [])))
unfolding gource.Poset.FlagTable.get_flag_table gource.Prelude.lookup
merge_flag_table_lem_example =
    merge_flag_table_lem tables first (("x", pos 0) ∷ ("y", pos 1) ∷ [])
      (("x", pos 1) ∷ ("z", pos 1) ∷ []) refl tt (refl, (refl, tt))

abbrev carol : Peer
carol = record { id = pos 3; net_addr = "c:1"; pub_key_hex = "0x0C"; used = pos 0 }

abbrev pub participants : Peers
participants = record {
  sorted = carol ∷ [];
  by_pub_key = ("0x0C", carol) ∷ [];
  by_id = (pos 3, carol) ∷ [];
}

-- A store that knows the first event of the participant.
abbrev store : InmemStore unbounded
store = record poset.store {
  participants = participants;
  event_cache = ("e0", first) ∷ [];
  participant_events_cache = record {
    participants = participants;
    rim = record {
      name = "ParticipantEvents";
      size = 10;
      keys = pos 3 ∷ [];
      mapping =
          (
            pos 3,
            record {
              name = "ParticipantEvents[3]";
              size = 10;
              last_index = pos 0;
              items = "e0" ∷ [];
            },
          )
          ∷ [];
    };
  };
}

abbrev receiver : Poset env
receiver = record poset { participants = participants; store = store }

-- The second event of the participant, with the first one as its self-parent.
abbrev sent : Event
sent = record first {
  body = record first.body { index = pos 1; self_parent = "e0" };
  flag_table = 1 ∷ [];
  self_parent_index = pos 0;
}

name : env.store.participant_event "0x0C" (pos 0) store ≡ (ok "e0", store)
unfolding gource.Poset.Inmem.participant_event gource.Poset.EventsCache.get_item
    gource.Poset.EventsCache.participant_id gource.Common.RollingIndexMap.get_item
    gource.Common.RollingIndex.Defs.get_item gource.Common.RollingIndex.Defs.oldest_cached_index
    gource.Common.RollingIndex.Defs.slice_from gource.Prelude.lookup gource.Prelude.add64
    gource.Prelude.sub64 gource.Common.RollingIndex.Defs.index_at
name = refl

names : HasNames receiver sent
unfolding gource.Prelude.lookup gource.Peers.Peer.decode_hex
names = record {
  creator = carol;
  known = refl;
  key = refl;
  self = inl (refl, name);
  other = inl (refl, refl);
}

flags_there : sent.flag_table ≢ []
flags_there h = cc

read_wire_info-to_wire_example :
    read_wire_info (to_wire sent) receiver ≡ (ok (as_received sent), receiver)
read_wire_info-to_wire_example =
    read_wire_info-to_wire {env = env} receiver sent names tt flags_there

abbrev holder : Core env
holder = record core { poset = receiver }

asked : (known_events holder).0 ≡ ok ((pos 3, pos 0) ∷ [])
unfolding gource.Node.Core.on_poset gource.Node.Core.on_store_of gource.Poset.State.on_store
    gource.Common.Exec.on gource.Poset.Inmem.known_events gource.Poset.EventsCache.known
    gource.Common.RollingIndexMap.known gource.Prelude.lookup
asked = refl

-- The other node knows nothing of the participant.
abbrev nothing : Map ℤ ℤ
nothing = (pos 3, negsuc 0) ∷ []

-- It names one participant of the two.
abbrev two_known : Map ℤ ℤ
two_known = (pos 3, pos 4) ∷ (pos 5, pos 2) ∷ []

lacks :
    (lacking ((pos 3, pos 1) ∷ []) two_known ≡ 6) × (uncounted ((pos 3, pos 1) ∷ []) two_known ≡ 1)
unfolding lacking gap uncounted gource.Prelude.lookup
lacks = (refl, refl)

lacks_one : lacking nothing ((pos 3, pos 0) ∷ []) ≡ 1
unfolding lacking gap gource.Prelude.lookup
lacks_one = refl

over_sync_limit_iff_example : ((over_sync_limit nothing (pos 0) holder).0 ≡ ok true) ↔ (
    pos 0 <ℤ pos (lacking nothing ((pos 3, pos 0) ∷ []) - uncounted nothing ((pos 3, pos 0) ∷ [])))
over_sync_limit_iff_example =
    over_sync_limit_iff {env = env} nothing ((pos 3, pos 0) ∷ []) (pos 0) holder asked
      (omega (arith, lacks_one))

diff : (event_diff nothing holder).0 ≡ ok (first ∷ [])
unfolding event_diff collect_unknown gource.Node.Core.Diff.events_above
    gource.Node.Core.Diff.get_events gource.Node.Core.Diff.sort_topologically
    gource.Node.Core.Diff.earlier gource.Common.Sort.sort_by gource.Common.Sort.insert_by
    gource.Node.Core.on_poset gource.Node.Core.on_store_of gource.Poset.State.on_store
    gource.Common.Exec.on gource.Common.Exec.gets gource.Common.Exec.pure gource.Common.Exec.◌>>=◌
    gource.Poset.Inmem.participant_events gource.Poset.Inmem.get_event gource.Poset.Inmem.found
    gource.Poset.EventsCache.get gource.Poset.EventsCache.participant_id
    gource.Common.RollingIndexMap.get gource.Common.RollingIndex.Defs.get
    gource.Common.RollingIndex.Defs.oldest_cached_index gource.Common.RollingIndex.Defs.slice_from
    gource.Prelude.lookup gource.Prelude.add64 gource.Prelude.sub64
diff = refl

event_diff_lem_example :
    (unknown : List Event) × Collected {env = env} holder nothing unknown
    × Perm (first ∷ []) unknown
    × IsTopological (first ∷ [])
event_diff_lem_example = event_diff_lem {env = env} nothing (first ∷ []) holder diff
