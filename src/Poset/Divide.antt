-- ===== src/Poset/Divide.antt =====
-- src/poset/poset.go: `DivideRounds`, which gives the undetermined events their rounds and timestamps.
pub mod Queue
pub mod Dealt
use gource.Prelude.{
  ℕ, String, Bool, true, false, ◌&&◌, ◌||◌, not, List, [], ◌∷◌, ◌++◌, Option, none, some, ℤ, pos,
  ltb_ℤ, leb_ℤ, eqb_ℤ, sub64, Map, insert, string_eq, ◌==◌, if◌then◌else◌,
}
use gource.Common.Errors.{Result, ok, err, is, is_error, key_not_found}
use gource.Common.Exec.{Exec, pure, raise, gets, modify, attempt, for_each, ◌>>=◌, ◌>>◌}
use gource.Poset.Event.{
  Event, creator, set_round, set_lamport_timestamp, get_round, round_nil, lamport_timestamp_nil,
}
use gource.Poset.RoundInfo.{RoundInfo, new_round_info, add_event}
use gource.Poset.State.{Env, Poset, CoreView, on_store}
use gource.Poset.Graph.{lamport_timestamp}
use gource.Poset.Rounds.{round, witness, hex}
use gource.Poset.Insert.{with_wire_info}

-- A flag table with a 1 for each of the witnesses.
unfoldable pub flag_table_of : List String → Map String ℤ
flag_table_of [] = []
flag_table_of (w ∷ ws) = insert w (pos 1) (flag_table_of ws)

-- A round is put into the queue unless it is in it, or is below the last consensus round.
unfoldable pub needs_queue : RoundInfo → Option ℤ → ℤ → Bool
needs_queue info none n = not info.queued
needs_queue info (some last) n = not info.queued && leb_ℤ last n

unfoldable pub is_head : Env → Event → Option CoreView → Bool
is_head env ev none = false
is_head env ev (some core) = hex env ev == core.head && creator ev == core.hex_id

module _ {env : Env} where
  -- `roundInfo, err := p.Store.GetRound(n)`, where a missing round is a new one.
  unfoldable pub found_round : Result RoundInfo → Exec (Poset env) RoundInfo
  found_round (ok info) = pure info
  found_round (err e) = if is e key_not_found then pure new_round_info else raise e

  -- The head of the node itself names the witnesses of its round and of the one before.
  unfoldable pub with_proof : Event → Exec (Poset env) Event
  unfolding flag_table_of
  with_proof ev = do
    ws ← on_store (env.store.round_witnesses (get_round ev))
    let flagged = record ev { flag_table = env.codec.marshal_flag_table (flag_table_of ws) }
    if eqb_ℤ (get_round ev) (pos 0)
        then (do
          root ← on_store (env.store.get_root (creator ev))
          pure (record flagged { witness_proof = root.self_parent.hash ∷ [] }))
        else (do
          proofs ← on_store (env.store.round_witnesses (sub64 (get_round ev) (pos 1)))
          pure (record flagged { witness_proof = proofs }))

  -- The round info of round `n`, marked as queued; the round goes into the queue where it must.
  unfoldable pub queue_round : ℤ → RoundInfo → Exec (Poset env) RoundInfo
  queue_round n info = do
    last ← gets (λ s. s.last_consensus_round)
    if needs_queue info last n
        then (do
          modify (λ s. record s {
            pending_rounds = s.pending_rounds ++ record { index = n; decided = false } ∷ [];
          })
          pure (record info { queued = true }))
        else pure info

  module _ (fuel : ℕ) where
    unfoldable pub assign_round : String → Event → Exec (Poset env) Event
    unfolding is_head
    assign_round hash ev = do
      n ← round fuel hash
      found ← attempt (on_store (env.store.get_round n)) found_round
      info ← queue_round n found
      is_witness ← witness fuel hash
      on_store (env.store.set_round n (add_event info hash is_witness))
      core ← gets (λ s. s.core)
      if is_witness && is_head env ev core
          then with_proof (set_round ev n)
          else pure (set_round ev n)

    unfoldable pub assign_timestamp : String → Event → Exec (Poset env) Event
    assign_timestamp hash ev = do t ← lamport_timestamp fuel hash; pure (set_lamport_timestamp ev t)

    -- The event goes back to the store; the errors of these two calls are dropped, but not a panic.
    unfoldable pub save_event : Event → Exec (Poset env) Unit
    save_event ev = do
      full ←
          (if eqb_ℤ ev.creator_id (pos 0)
            then attempt (with_wire_info ev) (λ res. elim res [
              | ok wired ↦ pure wired
              | err e ↦ if is_error e then pure ev else raise e
            ])
            else pure ev)
      attempt (on_store (env.store.set_event full))
          (λ res. elim res [ ok _ ↦ pure tt | err e ↦ if is_error e then pure tt else raise e ])

    unfoldable pub divide_event : String → Exec (Poset env) Unit
    divide_event hash = do
      ev ← on_store (env.store.get_event hash)
      let no_round = eqb_ℤ ev.round round_nil
      ev1 ← (if no_round then assign_round hash ev else pure ev)
      let no_timestamp = eqb_ℤ ev1.lamport_timestamp lamport_timestamp_nil
      ev2 ← (if no_timestamp then assign_timestamp hash ev1 else pure ev1)
      if no_round || no_timestamp then save_event ev2 else pure tt

    unfoldable pub divide_rounds : Exec (Poset env) Unit
    divide_rounds = do hashes ← gets (λ s. s.undetermined_events); for_each hashes divide_event
