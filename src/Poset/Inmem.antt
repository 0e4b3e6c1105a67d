-- ===== src/Poset/Inmem.antt =====
-- src/poset/inmem_store.go: the store in memory, over the LRU caches and the hash of events. The
-- process ends (`os.Exit`) where a cache cannot be made, which is at a size of zero alone.
pub mod Rounds
pub mod AsStore
pub mod RoundTrips
use gource.Prelude.{
  ℕ, String, Bool, true, false, ◌&&◌, not, List, [], ◌∷◌, map, Option, none, some, ℤ, pos, negsuc,
  add64, ltb_ℤ, eqb_ℤ, if◌then◌else◌, Map, lookup, insert, int_eq, string_eq, format_int, length,
}
use gource.Common.Errors.{
  Error, Result, ok, err, new_store_err, key_not_found, no_root, empty, is, ◌>>=◌ as bind,
}
use gource.Common.Exec.{Exec, pure, raise, lift, gets, modify, attempt, ◌>>=◌, ◌>>◌}
use gource.Common.RollingIndex.Defs
use gource.Common.RollingIndex.Defs.{RollingIndex, new_rolling_index}
use gource.Peers.Peer.{Peer}
use gource.Peers.Registry.{Peers}
use gource.Poset.Event.{Event, creator, index}
use gource.Poset.Block.{Root, Frame, Block, new_base_root}
use gource.Poset.RoundInfo.{RoundInfo, new_round_info, witnesses}
use gource.Poset.EventsCache
use gource.Poset.EventsCache.{EventsCache, new_events_cache}
use gource.Poset.Lru.{Lru}

module _ (lru : Lru) where
  pub record InmemStore : Type 0 where
    pub cache_size : ℕ
    pub participants : Peers
    pub event_cache : lru.Cache String Event
    pub round_cache : lru.Cache ℤ RoundInfo
    pub block_cache : lru.Cache ℤ Block
    pub frame_cache : lru.Cache ℤ Frame
    pub consensus_cache : RollingIndex String
    pub tot_consensus_events : ℤ
    pub participant_events_cache : EventsCache
    pub roots_by_participant : Map String Root
    pub roots_by_self_parent : Option (Map String Root)
    pub last_round : ℤ
    pub last_consensus_events : Map String String
    pub last_block : ℤ

base_roots : Map String Peer → Map String Root
base_roots [] = []
base_roots ((pk, peer) ∷ peers) = insert pk (new_base_root peer.id) (base_roots peers)

-- The loop of `RootsBySelfParent`.
index_roots : Map String Root → Map String Root → Map String Root
index_roots [] m = m
index_roots ((_, root) ∷ roots) m = index_roots roots (insert root.self_parent.hash root m)

module _ (lru : Lru) (event_hex : Event → String) where
  unfoldable pub new_inmem : Peers → ℕ → InmemStore lru
  unfolding base_roots
  new_inmem participants cache_size = record {
    cache_size = cache_size;
    participants = participants;
    event_cache = lru.new String Event cache_size;
    round_cache = lru.new ℤ RoundInfo cache_size;
    block_cache = lru.new ℤ Block cache_size;
    frame_cache = lru.new ℤ Frame cache_size;
    consensus_cache = new_rolling_index "ConsensusCache" cache_size;
    tot_consensus_events = pos 0;
    participant_events_cache = new_events_cache cache_size participants;
    roots_by_participant = base_roots participants.by_pub_key;
    roots_by_self_parent = none;
    last_round = negsuc 0;
    last_consensus_events = [];
    last_block = negsuc 0;
  }

  unfoldable pub roots_by_self_parent : Exec (InmemStore lru) (Map String Root)
  unfolding index_roots
  roots_by_self_parent s = elim s.roots_by_self_parent [
    | some m ↦ (ok m, s)
    | none ↦
        let m = index_roots s.roots_by_participant [] in
        (ok m, record s { roots_by_self_parent = some m })
  ]

  unfoldable pub found {ℓ} : {A S : Type ℓ} → Option A → Error → S → Result A × S
  found none e s = (err e, s)
  found (some a) e s = (ok a, s)

  unfoldable pub get_event : String → Exec (InmemStore lru) Event
  unfolding found
  get_event key s =
      let (res, c) = lru.get String Event string_eq s.event_cache key in
      found res (new_store_err "EventCache" key_not_found key) (record s { event_cache = c })

  unfoldable pub add_participant_event : String → String → ℤ → Exec (InmemStore lru) Unit
  add_participant_event participant hash index s =
      let (r, c) = EventsCache.set_item s.participant_events_cache participant hash index in
      (r, record s { participant_events_cache = c })

  -- A new event goes to its creator's window; then, new or not, into the cache.
  unfoldable pub set_event : Event → Exec (InmemStore lru) Unit
  set_event event = attempt (get_event (event_hex event)) λ known. (do
    elim known [
      | ok _ ↦ pure tt
      | err e ↦
          if not (is e key_not_found)
          then raise e
          else add_participant_event (creator event) (event_hex event) (index event)
    ]
    modify (λ s. record s {
      event_cache = lru.add String Event string_eq s.event_cache (event_hex event) event;
    }))

  unfoldable pub participant_events : String → ℤ → Exec (InmemStore lru) (List String)
  participant_events participant skip s =
      (EventsCache.get s.participant_events_cache participant skip, s)

  -- An index that the window does not have may be that of the root.
  or_root : ℤ → Error → Option Root → String → Result String
  or_root index e none participant = err (new_store_err "InmemStore.Roots" no_root participant)
  or_root index e (some root) participant =
      if eqb_ℤ root.self_parent.index index then ok root.self_parent.hash else err e

  unfoldable pub participant_event : String → ℤ → Exec (InmemStore lru) String
  unfolding or_root
  participant_event participant index s =
      elim (EventsCache.get_item s.participant_events_cache participant index) [
        | ok ev ↦ (ok ev, s)
        | err e ↦ (or_root index e (lookup participant s.roots_by_participant) participant, s)
      ]

  last_or_root : Option Root → String → Result (String × Bool)
  last_or_root none participant = err (new_store_err "InmemStore.Roots" no_root participant)
  last_or_root (some root) participant = ok (root.self_parent.hash, true)

  -- The hash of the participant's last event, or of its root (and then `true`).
  unfoldable pub last_event_from : String → Exec (InmemStore lru) (String × Bool)
  unfolding last_or_root
  last_event_from participant s =
      elim (EventsCache.get_last s.participant_events_cache participant) [
        | ok last ↦ (ok (last, false), s)
        | err e ↦
            if is e empty
            then (last_or_root (lookup participant s.roots_by_participant) participant, s)
            else (err e, s)
      ]

  unfoldable pub last_consensus_event_from : String → Exec (InmemStore lru) (String × Bool)
  unfolding last_or_root
  last_consensus_event_from participant s = elim (lookup participant s.last_consensus_events) [
    | some last ↦ (ok (last, false), s)
    | none ↦ (last_or_root (lookup participant s.roots_by_participant) participant, s)
  ]

  -- `known[id]`, which is 0 for an id that is not there.
  known_at : ℤ → Map ℤ ℤ → ℤ
  known_at id known = elim (lookup id known) [ none ↦ pos 0 | some i ↦ i ]

  -- The loop of `KnownEvents`: where nothing is known of a peer, its root counts.
  fill_roots : Map String Peer → Map String Root → Map ℤ ℤ → Map ℤ ℤ
  unfolding known_at
  fill_roots [] roots known = known
  fill_roots ((p, peer) ∷ peers) roots known = fill_roots peers roots (
      if eqb_ℤ (known_at peer.id known) (negsuc 0)
      then elim (lookup p roots) [
        | none ↦ known
        | some root ↦ insert peer.id root.self_parent.index known
      ]
      else known)

  unfoldable pub known_events : Exec (InmemStore lru) (Map ℤ ℤ)
  unfolding fill_roots
  known_events s = (
    ok (
        fill_roots s.participants.by_pub_key s.roots_by_participant
          (EventsCache.known s.participant_events_cache)),
    s,
  )
