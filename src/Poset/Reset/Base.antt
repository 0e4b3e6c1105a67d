-- ===== src/Poset/Reset/Base.antt =====
-- The state that a successful `Reset` starts from.
use mathlib.Core.List.{append-nil, append_assoc}
use gource.Prelude.{
  ◌+◌, ◌≡◌, refl, sym, ap, ◌∙◌, inl, inr, Bool, false, List, [], ◌∷◌, ◌++◌, none, some, length,
  length-append, arith,
}
use gource.Common.Errors.{ok}
use gource.Common.Exec
use gource.Common.Exec.{Exec, lift, gets, modify, for_each, ◌>>=◌, ◌>>◌}
use gource.Common.Exec.Inversion.{ok-bind}
use gource.Common.Exec.Steps.{IsOrder, Steps, Steps-bind, Steps-modify, Steps-for_each}
use gource.Poset.Event.{Event, BlockSignature, block_signatures}
use gource.Poset.Block.{Block, Frame}
use gource.Poset.State.{Env, Poset, on_store, set_last_consensus_round}
use gource.Poset.Insert.{insert_event, admit_event, number_event, enqueue}
use gource.Poset.Insert.Queues.{insert_event_lem, check_event-Asks, store_event-Asks}
use gource.Poset.Rounds.{hex}
use gource.Poset.Reset.{clear, reset}
use gource.Poset.Queries.Caches.{Asks}

-- All block signatures of some events.
unfoldable pub signatures_of : List Event → List BlockSignature
signatures_of [] = []
signatures_of (e ∷ es) = block_signatures e ++ signatures_of es

module _ {env : Env} where
  -- What an insertion leaves alone.
  record SameBase (s t : Poset env) : Type 0 where
    last : t.last_consensus_round ≡ s.last_consensus_round
    pending : t.pending_rounds ≡ s.pending_rounds
    anchor : t.anchor_block ≡ s.anchor_block

  SameBase-IsOrder : IsOrder SameBase
  SameBase-IsOrder = record {
    stays = λ s. record { last = refl; pending = refl; anchor = refl };
    chain = λ s t u h k. record {
      last = k.last ∙ h.last;
      pending = k.pending ∙ h.pending;
      anchor = k.anchor ∙ h.anchor;
    };
  }

  Asks-SameBase : {A : Type 0} (m : Exec (Poset env) A) → Asks m → Steps SameBase m
  Asks-SameBase m a = record {
    at = λ s. record {
      last = ap (λ t. t.last_consensus_round) (a.at s);
      pending = ap (λ t. t.pending_rounds) (a.at s);
      anchor = ap (λ t. t.anchor_block) (a.at s);
    };
  }

  number_event-SameBase : (event : Event) → Steps SameBase (number_event {env = env} event)
  unfolding number_event gets modify Exec.pure ◌>>=◌
  number_event-SameBase event = record {
    at = λ s. record { last = refl; pending = refl; anchor = refl };
  }

  enqueue-SameBase : (event : Event) → Steps SameBase (modify (enqueue {env = env} event))
  unfolding enqueue
  enqueue-SameBase event =
      Steps-modify SameBase-IsOrder _ (λ s. record { last = refl; pending = refl; anchor = refl })

  insert_event-SameBase :
      (event : Event) (wire_info : Bool) → Steps SameBase (insert_event {env = env} event wire_info)
  unfolding insert_event admit_event
  insert_event-SameBase event wire_info =
      Steps-bind SameBase-IsOrder _ _
        (Steps-bind SameBase-IsOrder _ _ (Asks-SameBase _ (check_event-Asks event)) (λ _.
          Steps-bind SameBase-IsOrder _ _ (number_event-SameBase event)
            (λ numbered. Asks-SameBase _ (store_event-Asks numbered wire_info))))
        enqueue-SameBase

  insert_all : List Event → Exec (Poset env) (Unit {0})
  insert_all evs = for_each evs (λ ev. insert_event ev false)

  insert_all-SameBase : (evs : List Event) → Steps SameBase (insert_all evs)
  unfolding insert_all
  insert_all-SameBase evs =
      Steps-for_each SameBase-IsOrder evs _ (λ ev. insert_event-SameBase ev false)

  inserted_all :
      (evs : List Event) (s : Poset env)
      → (insert_all evs s).0 ≡ ok tt
      → ((insert_all evs s).1.sig_pool ≡ s.sig_pool ++ signatures_of evs)
        × (length (insert_all evs s).1.undetermined_events
            ≡ length s.undetermined_events + length evs)
  unfolding insert_all for_each signatures_of Exec.pure
  inserted_all [] s h = (sym (append-nil s.sig_pool), omega arith)
  inserted_all (ev ∷ evs) s h =
      let (_, first, rest, state) =
        ok-bind (insert_event ev false) (λ _. for_each evs (λ ev. insert_event ev false)) tt s h in
      let t = (insert_event ev false s).1 in
      let (pool, count) = inserted_all evs t rest in
      elim (insert_event_lem ev false s) [
        | inr (e, failed, _) ↦ cc
        | inl (_, stored, _, _, undetermined, signed) ↦ (
          ap (λ (u : Poset env). u.sig_pool) state
              ∙ pool
              ∙ ap (λ l. l ++ signatures_of evs) signed
              ∙ append_assoc s.sig_pool (block_signatures ev) (signatures_of evs),
          ap (λ (u : Poset env). length u.undetermined_events) state
              ∙ count
              ∙ rw undetermined
                  (omega (arith, length-append {0} s.undetermined_events (hex env stored ∷ []))),
        )
      ]

  -- After a `Reset` that succeeds, the last consensus round is that in which the block was received, no round
  -- is pending, there is no anchor block, and there are as many undetermined events as the frame has events.
  -- The pool of signatures is not cleared: it has the old signatures, and those of the frame's events after them.
  pub reset_lem :
      (block : Block) (frame : Frame) (s : Poset env)
      → (reset block frame s).0 ≡ ok tt
      → ((reset block frame s).1.last_consensus_round ≡ some block.round_received)
        × ((reset block frame s).1.pending_rounds ≡ [])
        × ((reset block frame s).1.anchor_block ≡ none)
        × (length (reset block frame s).1.undetermined_events ≡ length frame.events)
        × ((reset block frame s).1.sig_pool ≡ s.sig_pool ++ signatures_of frame.events)
  unfolding reset clear insert_all modify gets lift on_store Exec.on set_last_consensus_round
  reset_lem block frame s h =
      let (_, _, h1, s1) = ok-bind _ _ tt s h in
      let (_, _, h2, s2) = ok-bind _ _ tt _ h1 in
      let (_, _, h3, s3) = ok-bind _ _ tt _ h2 in
      let (_, _, h4, s4) = ok-bind _ _ tt _ h3 in
      let (_, _, h5, s5) = ok-bind _ _ tt _ h4 in
      let (_, _, h6, s6) = ok-bind _ _ tt _ h5 in
      let state = s1 ∙ s2 ∙ s3 ∙ s4 ∙ s5 ∙ s6 in
      let (pool, count) = inserted_all frame.events _ h6 in
      let base = (insert_all-SameBase frame.events).at _ in
      (
        ap (λ (u : Poset env). u.last_consensus_round) state ∙ base.last,
        ap (λ (u : Poset env). u.pending_rounds) state ∙ base.pending,
        ap (λ (u : Poset env). u.anchor_block) state ∙ base.anchor,
        ap (λ (u : Poset env). length u.undetermined_events) state ∙ count ∙ omega arith,
        ap (λ (u : Poset env). u.sig_pool) state ∙ pool,
      )
