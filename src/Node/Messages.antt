-- ===== src/Node/Messages.antt =====
-- src/net/commands.go: what nodes send to one another.
use gource.Prelude.{ℕ, Bool, List, Option, ℤ, Map}
use gource.Poset.Block.{Block, Frame}
use gource.Poset.Wire.{WireEvent}

pub record SyncRequest : Type 0 where
  pub from_id : ℤ
  pub known : Map ℤ ℤ

pub record SyncResponse : Type 0 where
  pub from_id : ℤ
  pub sync_limit : Bool
  pub events : List WireEvent
  pub known : Map ℤ ℤ

pub record EagerSyncRequest : Type 0 where
  pub from_id : ℤ
  pub events : List WireEvent

pub record EagerSyncResponse : Type 0 where
  pub from_id : ℤ
  pub success : Bool

pub record FastForwardRequest : Type 0 where
  pub from_id : ℤ

-- A response without an anchor block leaves the block and the frame as they are when declared: `none`.
pub record FastForwardResponse : Type 0 where
  pub from_id : ℤ
  pub block_and_frame : Option (Block × Frame)
  pub snapshot : List ℕ

pub data Command : Type 0 where
  sync_request : SyncRequest → Command
  eager_sync_request : EagerSyncRequest → Command
  fast_forward_request : FastForwardRequest → Command
  unexpected : Command

pub data Response : Type 0 where
  synced : SyncResponse → Response
  eager_synced : EagerSyncResponse → Response
  fast_forwarded : FastForwardResponse → Response
  nothing : Response
