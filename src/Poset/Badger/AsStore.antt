-- ===== src/Poset/Badger/AsStore.antt =====
-- The store on disk as a `Store`. The fuel is that of the loop over the events of a participant.
use gource.Prelude.{ℕ, String, List}
use gource.Common.Exec.{Exec, gets, lift, ◌>>=◌}
use gource.Poset.Event.{Event}
use gource.Poset.Lru.{Lru}
use gource.Poset.Store.{Store}
use gource.Poset.Inmem
use gource.Poset.Inmem.Rounds
use gource.Poset.Database.{Database, Formats}
use gource.Poset.Database.Records
use gource.Poset.Badger
use gource.Poset.Badger.{BadgerStore, on_inmem}

module _ (lru : Lru) (base : Database) (formats : Formats) (event_hex : Event → String)
    (fuel : ℕ) where
  abbrev pub badger_store : Store
  badger_store = record {
    State = BadgerStore lru base;
    cache_size = λ s. s.inmem.cache_size;
    roots_by_self_parent =
        on_inmem lru base formats event_hex (Inmem.roots_by_self_parent lru event_hex);
    get_event = Badger.get_event lru base formats event_hex;
    set_event = Badger.set_event lru base formats event_hex;
    participant_events = Badger.participant_events lru base formats event_hex fuel;
    participant_event = Badger.participant_event lru base formats event_hex;
    last_event_from =
        λ p. on_inmem lru base formats event_hex (Inmem.last_event_from lru event_hex p);
    last_consensus_event_from =
        λ p. on_inmem lru base formats event_hex (Inmem.last_consensus_event_from lru event_hex p);
    known_events = Badger.known_events lru base formats event_hex;
    consensus_events = on_inmem lru base formats event_hex (Rounds.consensus_events lru event_hex);
    consensus_events_count =
        on_inmem lru base formats event_hex (Rounds.consensus_events_count lru event_hex);
    add_consensus_event =
        λ e. on_inmem lru base formats event_hex (Rounds.add_consensus_event lru event_hex e);
    get_round = Badger.get_round lru base formats event_hex;
    set_round = Badger.set_round lru base formats event_hex;
    last_round = on_inmem lru base formats event_hex (Rounds.last_round lru event_hex);
    round_witnesses = Badger.round_witnesses lru base formats event_hex;
    round_events = Badger.round_events lru base formats event_hex;
    get_root = Badger.get_root lru base formats event_hex;
    get_block = Badger.get_block lru base formats event_hex;
    set_block = Badger.set_block lru base formats event_hex;
    last_block_index = on_inmem lru base formats event_hex (Rounds.last_block_index lru event_hex);
    get_frame = Badger.get_frame lru base formats event_hex;
    set_frame = Badger.set_frame lru base formats event_hex;
    reset = Badger.reset lru base formats event_hex;
  }

  -- What `Bootstrap` reads.
  unfoldable pub topological_events : Exec (BadgerStore lru base) (List Event)
  topological_events = do
    r ← gets (λ s. Records.topological_events base formats event_hex fuel s.db)
    lift r
