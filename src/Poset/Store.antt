-- ===== src/Poset/Store.antt =====
-- src/poset/store.go: the interface that the poset has its events, rounds, blocks and frames behind.
-- A read is an action too, since the stores keep LRU caches, which a read refreshes.
use gource.Prelude.{ℕ, String, Bool, List, ℤ, Map}
use gource.Common.Exec.{Exec}
use gource.Poset.Event.{Event}
use gource.Poset.Block.{Block, Frame, Root}
use gource.Poset.RoundInfo.{RoundInfo}

pub record Store : Type 1 where
  pub State : Type 0
  pub cache_size : State → ℕ
  pub roots_by_self_parent : Exec State (Map String Root)
  pub get_event : String → Exec State Event
  pub set_event : Event → Exec State Unit
  pub participant_events : String → ℤ → Exec State (List String)
  pub participant_event : String → ℤ → Exec State String
  pub last_event_from : String → Exec State (String × Bool)
  pub last_consensus_event_from : String → Exec State (String × Bool)
  pub known_events : Exec State (Map ℤ ℤ)
  pub consensus_events : Exec State (List String)
  pub consensus_events_count : Exec State ℤ
  pub add_consensus_event : Event → Exec State Unit
  pub get_round : ℤ → Exec State RoundInfo
  pub set_round : ℤ → RoundInfo → Exec State Unit
  pub last_round : Exec State ℤ
  pub round_witnesses : ℤ → Exec State (List String)
  pub round_events : ℤ → Exec State ℕ
  pub get_root : String → Exec State Root
  pub get_block : ℤ → Exec State Block
  pub set_block : Block → Exec State Unit
  pub last_block_index : Exec State ℤ
  pub get_frame : ℤ → Exec State Frame
  pub set_frame : Frame → Exec State Unit
  pub reset : Map String Root → Exec State Unit
