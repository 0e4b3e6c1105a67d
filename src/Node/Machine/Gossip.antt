-- ===== src/Node/Machine/Gossip.antt =====
-- src/node/node.go: `gossip` and `fastForward`, cut where they wait for the answer of a peer. What the
-- transport gives back is an argument.
use gource.Prelude.{ℕ, String, Option, none, some, ℤ, Map, if◌then◌else◌}
use gource.Common.Errors.{Result, ok, err, panic}
use gource.Common.Exec.{Exec, pure, lift, gets, modify, ◌>>=◌, ◌>>◌}
use gource.Poset.State.{Env}
use gource.Poset.Block.{Block, Frame}
use gource.Node.Signer.{Signer}
use gource.Node.Core.{known_events}
use gource.Node.Core.Sync
use gource.Node.Core.Diff.{over_sync_limit, event_diff, to_wire}
use gource.Node.Machine.{Node, App, gossiping, catching_up, on_core, on_app, set_state, sync}
use gource.Node.Messages.{
  SyncRequest, SyncResponse, EagerSyncRequest, EagerSyncResponse, FastForwardResponse,
}

-- A response without a block is one whose body is a nil pointer.
unfoldable pub block_and_frame : FastForwardResponse → Result (Block × Frame)
block_and_frame resp = elim resp.block_and_frame [ none ↦ err panic | some bf ↦ ok bf ]

module _ {env : Env} {app : App} where
  -- `pull`, up to its request.
  unfoldable pub pull_request : Exec (Node env app) SyncRequest
  pull_request = do
    id ← gets (λ n. n.id)
    known ← on_core known_events
    pure (record { from_id = id; known = known })

  -- `pull`, from the answer on: `none` where the other node says that the sync limit is passed, and what
  -- the other node knows elsewhere.
  unfoldable pub pull_answer :
      Signer → ℕ → Result SyncResponse → Exec (Node env app) (Option (Map ℤ ℤ))
  pull_answer signer fuel answer = do
    resp ← lift answer
    if resp.sync_limit then pure none else do sync signer fuel resp.events; pure (some resp.known)

  -- `gossip`, from the answer to the pull on: the state changes where the limit is passed.
  unfoldable pub pulled : Signer → ℕ → Result SyncResponse → Exec (Node env app) (Option (Map ℤ ℤ))
  pulled signer fuel answer = do
    known ← pull_answer signer fuel answer
    elim known [ none ↦ do modify (set_state catching_up); pure none | some k ↦ pure (some k) ]

  -- `push`, up to its request. There is none where the limit is passed or nothing is to be told.
  unfoldable pub push_request : Map ℤ ℤ → Exec (Node env app) (Option EagerSyncRequest)
  push_request known = do
    id ← gets (λ n. n.id)
    limit ← gets (λ n. n.sync_limit)
    over ← on_core (over_sync_limit known limit)
    if over then pure none else do
      diff ← on_core (event_diff known)
      pure (
          if Sync.is_empty diff
          then none
          else some (record { from_id = id; events = to_wire diff }))

  -- `UpdateLast`
  unfoldable pub update_last : String → Node env app → Node env app
  update_last peer n = record n { selector = record n.selector { last = peer } }

  -- `gossip`, after the push: an error of the answer leaves the selector as it is.
  unfoldable pub pushed : String → Result EagerSyncResponse → Exec (Node env app) Unit
  pushed peer answer = do _ ← lift answer; modify (update_last peer)

  -- `gossip` with nothing in between: what the peer answers is given by two functions.
  unfoldable pub gossip :
      Signer
      → ℕ
      → String
      → (SyncRequest → Result SyncResponse)
      → (EagerSyncRequest → Result EagerSyncResponse)
      → Exec (Node env app) Unit
  gossip signer fuel peer sync_rpc eager_sync_rpc = do
    request ← pull_request
    known ← pulled signer fuel (sync_rpc request)
    elim known [
      | none ↦ pure tt
      | some k ↦ do
        eager ← push_request k
        elim eager [ none ↦ modify (update_last peer) | some r ↦ pushed peer (eager_sync_rpc r) ]
    ]

  -- `fastForward`, from the answer on.
  unfoldable pub fast_forwarded : Signer → ℕ → Result FastForwardResponse → Exec (Node env app) Unit
  fast_forwarded signer fuel answer = do
    resp ← lift answer
    (block, frame) ← lift (block_and_frame resp)
    on_core (Sync.fast_forward signer fuel block frame)
    on_app (app.restore resp.snapshot)
    modify (set_state gossiping)
