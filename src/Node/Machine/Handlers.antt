-- ===== src/Node/Machine/Handlers.antt =====
-- src/node/node.go: the handlers of requests. Each gives a response and an error, one beside the other.
use gource.Prelude.{ℕ, true, false, List, [], Option, none, some, if◌then◌else◌}
use gource.Common.Errors.{Error, Result, ok, err, message}
use gource.Common.Exec.{Exec, pure, gets, attempt, ◌>>=◌}
use gource.Poset.State.{Env}
use gource.Poset.Event.{Event}
use gource.Poset.Reset.{get_anchor_block_with_frame}
use gource.Node.Signer.{Signer}
use gource.Node.Core.{on_poset, known_events}
use gource.Node.Core.Diff.{over_sync_limit, event_diff, to_wire}
use gource.Node.Machine.{Node, App, on_core, on_app, sync}
use gource.Node.Messages.{
  SyncRequest, SyncResponse, EagerSyncRequest, EagerSyncResponse, FastForwardRequest,
  FastForwardResponse, Command, Response, synced, eager_synced, fast_forwarded, nothing,
  sync_request, eager_sync_request, fast_forward_request, unexpected,
}

unfoldable pub error_of {ℓ} : {A : Type ℓ} → Result A → Option Error
error_of (ok a) = none
error_of (err e) = some e

-- After an error there is no event.
unfoldable pub events_or_nil : Result (List Event) → List Event
events_or_nil (ok events) = events
events_or_nil (err e) = []

module _ {env : Env} {app : App} where
  unfoldable pub process_sync_request :
      SyncRequest → Exec (Node env app) (SyncResponse × Option Error)
  process_sync_request cmd = do
    id ← gets (λ n. n.id)
    limit ← gets (λ n. n.sync_limit)
    over ← on_core (over_sync_limit cmd.known limit)
    (events, e) ←
        (if over
          then pure ([], none)
          else attempt (on_core (event_diff cmd.known))
              (λ diff. pure (to_wire (events_or_nil diff), error_of diff)))
    known ← on_core known_events
    pure (record { from_id = id; sync_limit = over; events = events; known = known }, e)

  unfoldable pub process_eager_sync_request :
      Signer → ℕ → EagerSyncRequest → Exec (Node env app) (EagerSyncResponse × Option Error)
  process_eager_sync_request signer fuel cmd = do
    id ← gets (λ n. n.id)
    attempt (sync signer fuel cmd.events) λ res.
        pure (
          record { from_id = id; success = elim res [ ok _ ↦ true | err _ ↦ false ] },
          error_of res,
        )

  -- A snapshot that cannot be had is nil, beside the block and the frame.
  unfoldable pub process_fast_forward_request :
      ℕ → FastForwardRequest → Exec (Node env app) (FastForwardResponse × Option Error)
  process_fast_forward_request fuel cmd = do
    id ← gets (λ n. n.id)
    attempt (on_core (on_poset (get_anchor_block_with_frame fuel))) λ anchor. elim anchor [
      | err e ↦ pure (record { from_id = id; block_and_frame = none; snapshot = [] }, some e)
      | ok (block, frame) ↦ attempt (on_app (app.get_snapshot block.index)) λ snapshot. pure (
        record {
          from_id = id;
          block_and_frame = some (block, frame);
          snapshot = elim snapshot [ ok bytes ↦ bytes | err _ ↦ [] ];
        },
        error_of snapshot,
      )
    ]

  unfoldable pub process_rpc : Signer → ℕ → Command → Exec (Node env app) (Response × Option Error)
  process_rpc signer fuel cmd = elim cmd [
    | sync_request c ↦ do (r, e) ← process_sync_request c; pure (synced r, e)
    | eager_sync_request c ↦ do
      (r, e) ← process_eager_sync_request signer fuel c
      pure (eager_synced r, e)
    | fast_forward_request c ↦ do
      (r, e) ← process_fast_forward_request fuel c
      pure (fast_forwarded r, e)
    | unexpected ↦ pure (nothing, some (message "unexpected command"))
  ]
