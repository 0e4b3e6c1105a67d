-- ===== src/Poset/Database/Records.antt =====
-- src/poset/badger_store.go: the methods `db…`. The loops that read until a key is missing take fuel.
use gource.Prelude.{
  ℕ, zero, suc, String, Bool, false, List, [], ◌∷◌, ◌++◌, none, some, ℤ, pos, negsuc, add64,
  format_int, Map, lookup, string_eq, if◌then◌else◌,
}
use gource.Common.Errors.{Result, ok, err, panic, no_fuel, ◌>>=◌}
use gource.Common.Exec.{Exec}
use gource.Peers.Peer.{Peer}
use gource.Poset.Event.{Event, creator, index}
use gource.Poset.Block.{Block, Frame, Root}
use gource.Poset.RoundInfo.{RoundInfo}
use gource.Poset.Database.{
  Database, Format, Formats, topological_event_key, participant_key, participant_event_key,
  participant_root_key, round_key, block_key, frame_key, is_db_key_not_found,
}

module _ (db : Database) where
  -- `View` with a `Get` and the value of the item.
  unfoldable pub read : String → db.State → Result String
  read key s = db.find key s >>= db.value

  unfoldable pub get : {A : Type 0} → Format A → String → db.State → Result A
  get format key s = read key s >>= format.unmarshal

  -- A transaction, where its writes could be made.
  unfoldable pub transact : Result (List (String × String)) → Exec db.State Unit
  transact (ok ws) s = db.commit ws s
  transact (err e) s = (err e, s)

  unfoldable pub set : {A : Type 0} → Format A → String → A → Exec db.State Unit
  set format key a = transact (do bytes ← format.marshal a; ok ((key, bytes) ∷ []))

  unfoldable pub get_participant_event : String → ℤ → db.State → Result String
  get_participant_event participant index s = read (participant_event_key participant index) s

  -- The loop of `dbParticipantEvents`. An item whose value cannot be read ends it, and then the error that
  -- is looked at is nil.
  unfoldable pub participant_events_from : ℕ → String → ℤ → db.State → Result (List String)
  participant_events_from zero participant i s = err no_fuel
  participant_events_from (suc fuel) participant i s =
      let rest = participant_events_from fuel participant (add64 i (pos 1)) s in
      elim (db.find (participant_event_key participant i) s) [
        | err e ↦ if is_db_key_not_found e then ok [] else err e
        | ok item ↦ elim (db.value item) [
          | err _ ↦ err panic
          | ok hash ↦ (do hashes ← rest; ok (hash ∷ hashes))
        ]
      ]

  unfoldable pub get_participant_events : ℕ → String → ℤ → db.State → Result (List String)
  get_participant_events fuel participant skip s =
      participant_events_from fuel participant (add64 skip (pos 1)) s

  -- [participant_participant] => [id]
  unfoldable pub participant_writes : Map String Peer → List (String × String)
  participant_writes [] = []
  participant_writes ((participant, peer) ∷ ps) =
      (participant_key participant, format_int peer.id) ∷ participant_writes ps

  unfoldable pub set_participants : Map String Peer → Exec db.State Unit
  set_participants by_pub_key = transact (ok (participant_writes by_pub_key))

  -- Is the key in the database, or among the writes before it? Only a missing key counts as a new one.
  unfoldable pub is_new : String → List (String × String) → db.State → Bool
  is_new key ws s = elim (lookup key ws) [
    | some _ ↦ false
    | none ↦ elim (db.find key s) [ ok _ ↦ false | err e ↦ is_db_key_not_found e ]
  ]

module _ (db : Database) (formats : Formats) (event_hex : Event → String) where
  unfoldable pub get_event : String → db.State → Result Event
  get_event key = get db formats.events key

  -- What one event adds to the writes of `dbSetEvents`. The indexes are written for a new event only.
  unfoldable pub event_writes :
      Event → String → List (String × String) → db.State → List (String × String)
  event_writes event bytes ws s =
      let hex = event_hex event in
      (hex, bytes)
      ∷ (if is_new db hex ws s
          then (topological_event_key event.topological_index, hex)
            ∷ (participant_event_key (creator event) (index event), hex)
            ∷ []
          else [])

  -- The loop over the events.
  unfoldable pub events_writes :
      List Event → List (String × String) → db.State → Result (List (String × String))
  events_writes [] ws s = ok ws
  events_writes (event ∷ events) ws s = do
    bytes ← formats.events.marshal event
    events_writes events (ws ++ event_writes event bytes ws s) s

  unfoldable pub set_events : List Event → Exec db.State Unit
  set_events events s = transact db (events_writes events [] s) s

  -- The loop of `dbTopologicalEvents`.
  unfoldable pub topological_events_from : ℕ → ℤ → db.State → Result (List Event)
  topological_events_from zero t s = err no_fuel
  topological_events_from (suc fuel) t s =
      let rest = topological_events_from fuel (add64 t (pos 1)) s in
      elim (db.find (topological_event_key t) s) [
        | err e ↦ if is_db_key_not_found e then ok [] else err e
        | ok item ↦ elim (db.value item) [
          | err _ ↦ err panic
          | ok hash ↦ (do event ← get_event hash s; events ← rest; ok (event ∷ events))
        ]
      ]

  unfoldable pub topological_events : ℕ → db.State → Result (List Event)
  topological_events fuel s = topological_events_from fuel (negsuc 0) s

  -- [participant_root] => [root bytes]
  unfoldable pub root_writes : Map String Root → Result (List (String × String))
  root_writes [] = ok []
  root_writes ((participant, root) ∷ roots) = do
    bytes ← formats.roots.marshal root
    ws ← root_writes roots
    ok ((participant_root_key participant, bytes) ∷ ws)

  unfoldable pub set_roots : Map String Root → Exec db.State Unit
  set_roots roots = transact db (root_writes roots)

  unfoldable pub get_root : String → db.State → Result Root
  get_root participant = get db formats.roots (participant_root_key participant)

  unfoldable pub get_round : ℤ → db.State → Result RoundInfo
  get_round index = get db formats.rounds (round_key index)

  unfoldable pub set_round : ℤ → RoundInfo → Exec db.State Unit
  set_round index round = set db formats.rounds (round_key index) round

  unfoldable pub get_block : ℤ → db.State → Result Block
  get_block index = get db formats.blocks (block_key index)

  unfoldable pub set_block : Block → Exec db.State Unit
  set_block block = set db formats.blocks (block_key block.index) block

  unfoldable pub get_frame : ℤ → db.State → Result Frame
  get_frame index = get db formats.frames (frame_key index)

  unfoldable pub set_frame : Frame → Exec db.State Unit
  set_frame frame = set db formats.frames (frame_key frame.round) frame
