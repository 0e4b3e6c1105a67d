-- ===== src/Poset/Inmem/AsStore.antt =====
-- The store in memory as a `Store`.
use gource.Prelude.{String}
use gource.Poset.Event.{Event}
use gource.Poset.Lru.{Lru}
use gource.Poset.Store.{Store}
use gource.Poset.Inmem
use gource.Poset.Inmem.{InmemStore}
use gource.Poset.Inmem.Rounds

abbrev pub inmem_store : Lru → (Event → String) → Store
inmem_store lru event_hex = record {
  State = InmemStore lru;
  cache_size = λ s. s.cache_size;
  roots_by_self_parent = Inmem.roots_by_self_parent lru event_hex;
  get_event = Inmem.get_event lru event_hex;
  set_event = Inmem.set_event lru event_hex;
  participant_events = Inmem.participant_events lru event_hex;
  participant_event = Inmem.participant_event lru event_hex;
  last_event_from = Inmem.last_event_from lru event_hex;
  last_consensus_event_from = Inmem.last_consensus_event_from lru event_hex;
  known_events = Inmem.known_events lru event_hex;
  consensus_events = Rounds.consensus_events lru event_hex;
  consensus_events_count = Rounds.consensus_events_count lru event_hex;
  add_consensus_event = Rounds.add_consensus_event lru event_hex;
  get_round = Rounds.get_round lru event_hex;
  set_round = Rounds.set_round lru event_hex;
  last_round = Rounds.last_round lru event_hex;
  round_witnesses = Rounds.round_witnesses lru event_hex;
  round_events = Rounds.round_events lru event_hex;
  get_root = Rounds.get_root lru event_hex;
  get_block = Rounds.get_block lru event_hex;
  set_block = Rounds.set_block lru event_hex;
  last_block_index = Rounds.last_block_index lru event_hex;
  get_frame = Rounds.get_frame lru event_hex;
  set_frame = Rounds.set_frame lru event_hex;
  reset = Rounds.reset lru event_hex;
}
