-- ===== src/Poset/Inmem/Rounds.antt =====
-- src/poset/inmem_store.go: consensus events, rounds, roots, blocks, frames and `Reset`.
use gource.Prelude.{
  ℕ, String, not, List, [], some, ℤ, pos, negsuc, add64, ltb_ℤ, if◌then◌else◌, Map, lookup, insert,
  int_eq, string_eq, format_int, length,
}
use gource.Common.Errors.{Result, ok, err, new_store_err, key_not_found, is}
use gource.Common.Exec.{Exec, pure, raise, modify, attempt, ◌>>◌}
use gource.Common.RollingIndex.Defs
use gource.Common.RollingIndex.Defs.{RollingIndex, new_rolling_index, get_last_window}
use gource.Poset.Event.{Event, creator}
use gource.Poset.Block.{Root, Frame, Block}
use gource.Poset.RoundInfo.{RoundInfo, witnesses}
use gource.Poset.EventsCache
use gource.Poset.Lru.{Lru}
use gource.Poset.Inmem.{InmemStore, found, index_roots}

module _ (lru : Lru) (event_hex : Event → String) where
  unfoldable pub consensus_events : Exec (InmemStore lru) (List String)
  consensus_events s = (ok s.consensus_cache.items, s)

  unfoldable pub consensus_events_count : Exec (InmemStore lru) ℤ
  consensus_events_count s = (ok s.tot_consensus_events, s)

  -- The window after a write whose error is dropped.
  keep_window : RollingIndex String → Result (RollingIndex String) → RollingIndex String
  keep_window old (ok new) = new
  keep_window old (err e) = old

  unfoldable pub add_consensus_event : Event → Exec (InmemStore lru) Unit
  unfolding keep_window
  add_consensus_event event s = (
    ok tt,
    record s {
      consensus_cache =
          keep_window s.consensus_cache
            (Defs.set_item s.consensus_cache (event_hex event) s.tot_consensus_events);
      tot_consensus_events = add64 s.tot_consensus_events (pos 1);
      last_consensus_events = insert (creator event) (event_hex event) s.last_consensus_events;
    },
  )

  -- The round that Go returns beside the error, a new one, is written out where it is used.
  unfoldable pub get_round : ℤ → Exec (InmemStore lru) RoundInfo
  unfolding found
  get_round r s =
      let (res, c) = lru.get ℤ RoundInfo int_eq s.round_cache r in
      found lru event_hex res (new_store_err "RoundCache" key_not_found (format_int r))
        (record s { round_cache = c })

  unfoldable pub set_round : ℤ → RoundInfo → Exec (InmemStore lru) Unit
  set_round r round s = (
    ok tt,
    record s {
      round_cache = lru.add ℤ RoundInfo int_eq s.round_cache r round;
      last_round = if ltb_ℤ s.last_round r then r else s.last_round;
    },
  )

  unfoldable pub last_round : Exec (InmemStore lru) ℤ
  last_round s = (ok s.last_round, s)

  unfoldable pub round_witnesses : ℤ → Exec (InmemStore lru) (List String)
  round_witnesses r =
      attempt (get_round r) λ res. elim res [ ok round ↦ pure (witnesses round) | err _ ↦ pure [] ]

  unfoldable pub round_events : ℤ → Exec (InmemStore lru) ℕ
  round_events r =
      attempt (get_round r)
        λ res. elim res [ ok round ↦ pure (length round.events) | err _ ↦ pure 0 ]

  unfoldable pub get_root : String → Exec (InmemStore lru) Root
  unfolding found
  get_root participant s =
      found lru event_hex (lookup participant s.roots_by_participant)
        (new_store_err "RootCache" key_not_found participant) s

  unfoldable pub get_block : ℤ → Exec (InmemStore lru) Block
  unfolding found
  get_block index s =
      let (res, c) = lru.get ℤ Block int_eq s.block_cache index in
      found lru event_hex res (new_store_err "BlockCache" key_not_found (format_int index))
        (record s { block_cache = c })

  -- `if err != nil && !cm.Is(err, cm.KeyNotFound)`
  unfoldable pub refuse_other {ℓ} : {A : Type ℓ} → Result A → Exec (InmemStore lru) Unit
  refuse_other (ok _) = pure tt
  refuse_other (err e) = if not (is e key_not_found) then raise e else pure tt

  unfoldable pub set_block : Block → Exec (InmemStore lru) Unit
  unfolding refuse_other
  set_block block = do
    attempt (get_block block.index) refuse_other
    modify (λ s. record s {
      block_cache = lru.add ℤ Block int_eq s.block_cache block.index block;
      last_block = if ltb_ℤ s.last_block block.index then block.index else s.last_block;
    })

  unfoldable pub last_block_index : Exec (InmemStore lru) ℤ
  last_block_index s = (ok s.last_block, s)

  unfoldable pub get_frame : ℤ → Exec (InmemStore lru) Frame
  unfolding found
  get_frame index s =
      let (res, c) = lru.get ℤ Frame int_eq s.frame_cache index in
      found lru event_hex res (new_store_err "FrameCache" key_not_found (format_int index))
        (record s { frame_cache = c })

  unfoldable pub set_frame : Frame → Exec (InmemStore lru) Unit
  unfolding refuse_other
  set_frame frame = do
    attempt (get_frame frame.round) refuse_other
    modify (λ s. record s { frame_cache = lru.add ℤ Frame int_eq s.frame_cache frame.round frame })

  -- The blocks, the frames and the last consensus events stay.
  unfoldable pub reset : Map String Root → Exec (InmemStore lru) Unit
  unfolding index_roots
  reset roots s = (
    ok tt,
    record s {
      roots_by_participant = roots;
      roots_by_self_parent = some (index_roots roots []);
      event_cache = lru.new String Event s.cache_size;
      round_cache = lru.new ℤ RoundInfo s.cache_size;
      consensus_cache = new_rolling_index "ConsensusCache" s.cache_size;
      participant_events_cache = EventsCache.reset s.participant_events_cache;
      last_round = negsuc 0;
      last_block = negsuc 0;
    },
  )
