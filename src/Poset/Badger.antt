-- ===== src/Poset/Badger.antt =====
-- src/poset/badger_store.go: the store on disk. Each read goes to the store in memory, and to the
-- database where that fails; each write goes to both.
pub mod ReadThrough
pub mod AsStore
use gource.Prelude.{
  ℕ, String, Bool, true, false, List, [], ◌∷◌, Option, none, some, ℤ, pos, negsuc, Map, insert,
  int_eq, length, if◌then◌else◌,
}
use gource.Common.Errors.{Error, Result, ok, err, panic}
use gource.Common.Exec.{Exec, pure, raise, lift, gets, attempt, on, ◌>>=◌, ◌>>◌}
use gource.Peers.Peer.{Peer}
use gource.Peers.Registry.{Peers}
use gource.Poset.Event.{Event, index}
use gource.Poset.Block.{Block, Frame, Root}
use gource.Poset.RoundInfo.{RoundInfo, witnesses}
use gource.Poset.Lru.{Lru}
use gource.Poset.Inmem
use gource.Poset.Inmem.{InmemStore}
use gource.Poset.Inmem.Rounds
use gource.Poset.Database.{
  Database, Formats, map_error, participant_event_key, participant_root_key, round_key, block_key,
  frame_key,
}
use gource.Poset.Database.Records

module _ (lru : Lru) (base : Database) where
  pub record BadgerStore : Type 0 where
    pub participants : Peers
    pub inmem : InmemStore lru
    pub db : base.State
    pub path : String
    pub need_bootstrap : Bool

module _ (lru : Lru) (base : Database) (formats : Formats) (event_hex : Event → String) where
  unfoldable pub on_inmem : {A : Type 0} → Exec (InmemStore lru) A → Exec (BadgerStore lru base) A
  on_inmem m = on (λ s. s.inmem) (λ i s. record s { inmem = i }) m

  unfoldable pub on_db : {A : Type 0} → Exec base.State A → Exec (BadgerStore lru base) A
  on_db m = on (λ s. s.db) (λ d s. record s { db = d }) m

  -- From the cache, and where that fails from the database; a key that is missing there gets its name.
  unfoldable pub read_through :
      {A : Type 0}
      → Exec (InmemStore lru) A
      → (base.State → Result A)
      → String
      → String
      → Exec (BadgerStore lru base) A
  read_through cached stored name key = attempt (on_inmem cached) λ res. elim res [
    | ok a ↦ pure a
    | err _ ↦ (do r ← gets (λ s. stored s.db); lift (map_error name key r))
  ]

  unfoldable pub get_event : String → Exec (BadgerStore lru base) Event
  get_event key =
      read_through (Inmem.get_event lru event_hex key)
        (Records.get_event base formats event_hex key) "Event" key

  unfoldable pub set_event : Event → Exec (BadgerStore lru base) Unit
  set_event event = do
    on_inmem (Inmem.set_event lru event_hex event)
    on_db (Records.set_events base formats event_hex (event ∷ []))

  -- The error of the database goes on as it is.
  unfoldable pub participant_events : ℕ → String → ℤ → Exec (BadgerStore lru base) (List String)
  participant_events fuel participant skip =
      attempt (on_inmem (Inmem.participant_events lru event_hex participant skip)) λ res. elim res [
        | ok events ↦ pure events
        | err _ ↦ (do
          r ← gets (λ s. Records.get_participant_events base fuel participant skip s.db)
          lift r)
      ]

  unfoldable pub participant_event : String → ℤ → Exec (BadgerStore lru base) String
  participant_event participant index =
      read_through (Inmem.participant_event lru event_hex participant index)
        (Records.get_participant_event base participant index) "ParticipantEvent"
        (participant_event_key participant index)

  unfoldable pub get_root : String → Exec (BadgerStore lru base) Root
  get_root participant =
      read_through (Rounds.get_root lru event_hex participant)
        (Records.get_root base formats event_hex participant) "Root"
        (participant_root_key participant)

  unfoldable pub get_round : ℤ → Exec (BadgerStore lru base) RoundInfo
  get_round r =
      read_through (Rounds.get_round lru event_hex r) (Records.get_round base formats event_hex r)
        "Round" (round_key r)

  unfoldable pub set_round : ℤ → RoundInfo → Exec (BadgerStore lru base) Unit
  set_round r round = do
    on_inmem (Rounds.set_round lru event_hex r round)
    on_db (Records.set_round base formats event_hex r round)

  unfoldable pub round_witnesses : ℤ → Exec (BadgerStore lru base) (List String)
  round_witnesses r =
      attempt (get_round r) λ res. elim res [ ok round ↦ pure (witnesses round) | err _ ↦ pure [] ]

  unfoldable pub round_events : ℤ → Exec (BadgerStore lru base) ℕ
  round_events r =
      attempt (get_round r)
        λ res. elim res [ ok round ↦ pure (length round.events) | err _ ↦ pure 0 ]

  unfoldable pub get_block : ℤ → Exec (BadgerStore lru base) Block
  get_block rr =
      read_through (Rounds.get_block lru event_hex rr) (Records.get_block base formats event_hex rr)
        "Block" (block_key rr)

  unfoldable pub set_block : Block → Exec (BadgerStore lru base) Unit
  set_block block = do
    on_inmem (Rounds.set_block lru event_hex block)
    on_db (Records.set_block base formats event_hex block)

  unfoldable pub get_frame : ℤ → Exec (BadgerStore lru base) Frame
  get_frame rr =
      read_through (Rounds.get_frame lru event_hex rr) (Records.get_frame base formats event_hex rr)
        "Frame" (frame_key rr)

  unfoldable pub set_frame : Frame → Exec (BadgerStore lru base) Unit
  set_frame frame = do
    on_inmem (Rounds.set_frame lru event_hex frame)
    on_db (Records.set_frame base formats event_hex frame)

  unfoldable pub reset : Map String Root → Exec (BadgerStore lru base) Unit
  reset roots = on_inmem (Rounds.reset lru event_hex roots)

  -- The index of the last event. Where the last one is the root, the index of the root is read only if
  -- the root is not found, and is then that of a nil pointer.
  unfoldable pub index_of_last : String → String × Bool → Exec (BadgerStore lru base) ℤ
  index_of_last p (last, is_root) =
      if is_root
      then attempt (get_root p) (λ res. elim res [ ok _ ↦ pure (negsuc 0) | err _ ↦ raise panic ])
      else attempt (get_event last)
          (λ res. elim res [ ok event ↦ pure (index event) | err _ ↦ pure (negsuc 0) ])

  unfoldable pub known_of : String → Exec (BadgerStore lru base) ℤ
  known_of p =
      attempt (on_inmem (Inmem.last_event_from lru event_hex p))
        λ res. elim res [ ok last ↦ index_of_last p last | err _ ↦ pure (negsuc 0) ]

  unfoldable pub known_from : Map String Peer → Map ℤ ℤ → Exec (BadgerStore lru base) (Map ℤ ℤ)
  known_from [] known = pure known
  known_from ((p, peer) ∷ ps) known = do
    index ← known_of p
    known_from ps (insert peer.id index known)

  unfoldable pub known_events : Exec (BadgerStore lru base) (Map ℤ ℤ)
  known_events = do ps ← gets (λ s. s.participants.by_pub_key); known_from ps []
