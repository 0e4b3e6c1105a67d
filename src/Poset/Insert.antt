-- ===== src/Poset/Insert.antt =====
-- src/poset/poset.go: `InsertEvent` and what it checks.
pub mod Queues
use gource.Prelude.{
  String, Bool, false, ◌&&◌, not, [], ◌∷◌, ◌++◌, none, some, ℤ, pos, negsuc, add64, lookup,
  string_eq, ◌==◌, if◌then◌else◌,
}
use gource.Common.Errors.{ok, err, message}
use gource.Common.Exec.{Exec, pure, raise, lift, gets, modify, attempt, labelled, ◌>>=◌, ◌>>◌}
use gource.Poset.Event.{
  Event, creator, self_parent, other_parent, index, is_loaded, block_signatures, set_wire_info,
}
use gource.Poset.State.{Env, Poset, on_store, peer_by_key}
use gource.Poset.Rounds.{hex, in_root}

module _ {env : Env} where
  -- Check the SelfParent is the Creator's last known Event
  unfoldable pub check_self_parent : Event → Exec (Poset env) Unit
  check_self_parent event = do
    (creator_last_known, _) ← on_store (env.store.last_event_from (creator event))
    if self_parent event == creator_last_known
        then pure tt
        else raise (message "self-parent not last known event by creator")

  -- Check if we know the OtherParent
  unfoldable pub check_other_parent : Event → Exec (Poset env) Unit
  check_other_parent event =
      if other_parent event == ""
      then pure tt
      else attempt (on_store (env.store.get_event (other_parent event))) λ res. elim res [
        | ok _ ↦ pure tt
        | err _ ↦ do
          root ← on_store (env.store.get_root (creator event))
          if in_root root (hex env event) (other_parent event)
              then pure tt
              else raise (message "other-parent not known")
      ]

  unfoldable pub self_parent_index : Event → Exec (Poset env) ℤ
  self_parent_index event = attempt (on_store (env.store.last_event_from (creator event))) λ res.
      if (elim res [ ok (lf, is_root) ↦ is_root && lf == self_parent event | err _ ↦ false ])
      then (do root ← on_store (env.store.get_root (creator event)); pure root.self_parent.index)
      else (do parent ← on_store (env.store.get_event (self_parent event)); pure (index parent))

  -- The id of the creator and the index of the other-parent, which is not the empty one.
  unfoldable pub other_parent_info : Event → Exec (Poset env) (ℤ × ℤ)
  other_parent_info event = do
    root ← on_store (env.store.get_root (creator event))
    let kept = lookup (hex env event) root.others
    let regular = (do
      parent ← on_store (env.store.get_event (other_parent event))
      peer ← peer_by_key (creator parent)
      pure (peer.id, index parent))
    elim kept [
      | none ↦ regular
      | some other ↦
          if other.hash == other_parent event then pure (other.creator_id, other.index) else regular
    ]

  unfoldable pub with_wire_info : Event → Exec (Poset env) Event
  with_wire_info event = do
    sp_index ← self_parent_index event
    (op_creator, op_index) ←
        (if other_parent event == "" then pure (negsuc 0, negsuc 0) else other_parent_info event)
    peer ← peer_by_key (creator event)
    pure (set_wire_info event sp_index op_creator op_index peer.id)

  -- What `InsertEvent` does to the queues once the event is in the store.
  unfoldable pub enqueue : Event → Poset env → Poset env
  enqueue event s = record s {
    undetermined_events = s.undetermined_events ++ hex env event ∷ [];
    pending_loaded_events =
        if is_loaded event then add64 s.pending_loaded_events (pos 1) else s.pending_loaded_events;
    sig_pool = s.sig_pool ++ block_signatures event;
  }

  -- The checks, in order.
  unfoldable pub check_event : Event → Exec (Poset env) Unit
  check_event event = do
    valid ← lift (env.codec.verify_event event)
    if not valid then raise (message "invalid Event signature") else do
      labelled "CheckSelfParent" (check_self_parent event)
      labelled "CheckOtherParent" (check_other_parent event)

  -- The event gets the next topological index, whether or not it is stored in the end.
  unfoldable pub number_event : Event → Exec (Poset env) Event
  number_event event = do
    i ← gets (λ s. s.topological_index)
    modify (λ s. record s { topological_index = add64 s.topological_index (pos 1) })
    pure (record event { topological_index = i })

  -- The wire information, where it is asked for, and the store.
  unfoldable pub store_event : Event → Bool → Exec (Poset env) Event
  store_event event wire_info = do
    full ← (if wire_info then labelled "SetWireInfo" (with_wire_info event) else pure event)
    labelled "SetEvent" (on_store (env.store.set_event full))
    pure full

  -- All that can fail: the checks, the number, the store.
  unfoldable pub admit_event : Event → Bool → Exec (Poset env) Event
  admit_event event wire_info = do
    check_event event
    numbered ← number_event event
    store_event numbered wire_info

  unfoldable pub insert_event : Event → Bool → Exec (Poset env) Unit
  insert_event event wire_info = do stored ← admit_event event wire_info; modify (enqueue stored)
