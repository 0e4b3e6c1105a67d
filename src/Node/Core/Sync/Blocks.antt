-- ===== src/Node/Core/Sync/Blocks.antt =====
-- The blocks that a node has sent, through `Sync`, `RunConsensus` and `FastForward`.
use gource.Prelude.{ℕ, refl, String, Bool, true, false, List, [], ◌∷◌, Option, none, some, ℤ, Map}
use gource.Common.Errors.{Error}
use gource.Common.Exec.{Exec, modify, ◌>>=◌}
use gource.Common.Exec.Steps.{
  IsOrder, Steps, Steps-pure, Steps-lift, Steps-gets, Steps-modify, Steps-attempt,
}
use gource.Poset.Event.{Event}
use gource.Poset.State.{Env}
use gource.Poset.Insert.Queues.{with_wire_info-Asks}
use gource.Poset.Wire.{
  WireEvent, read_wire_info, read_self_parent, read_other_parent, known_peer, some_or,
}
use gource.Poset.Advance.{
  Advances, Advances-IsOrder, Asks-Advances, insert_event-Advances, consensus_steps-Advances, still,
}
use gource.Poset.Queries.Caches.{
  asks, Asks, on_store-Asks, bind-Asks, pure-Asks, raise-Asks, gets-Asks,
}
use gource.Node.Signer.{Signer}
use gource.Node.Core.{
  Core, on_store_of, set_head, insert_event, run_consensus, wire_info_and_sign,
  sign_and_insert_self_event, note_event,
}
use gource.Node.Core.Moves.{
  OfPoset, OfPoset-IsOrder, bind-Moves, attempt-Moves, if-Moves, labelled-Moves, on_poset-Moves,
  store-Moves,
}
use gource.Node.Core.Sync.{
  next_flag_table, add_self_event_block, sync_event, sync_events, sync, take_from_pools,
}

module _ {env : Env} where
  some_or-Asks : {A : Type 0} (e : Error) (o : Option A) → Asks {env = env} (some_or e o)
  unfolding some_or
  some_or-Asks e none = raise-Asks e
  some_or-Asks e (some a) = pure-Asks a

  known_peer-Asks : (e : Error) (id : ℤ) → Asks (known_peer {env = env} e id)
  unfolding known_peer
  known_peer-Asks e id = bind-Asks _ _ (gets-Asks _) (some_or-Asks e)

ruleset reads = (asks, some_or-Asks, known_peer-Asks)

module _ {env : Env} where
  pub read_wire_info-Asks : (we : WireEvent) → Asks (read_wire_info {env = env} we)
  unfolding read_wire_info read_self_parent read_other_parent
  read_wire_info-Asks we = search reads depth 12 fits 3000

  -- The posets of the two cores, where the second one has advanced.
  abbrev pub CoreAdvances : Core env → Core env → Type 0
  CoreAdvances = OfPoset Advances

  order : IsOrder CoreAdvances
  order = OfPoset-IsOrder Advances-IsOrder

  asked : {A : Type 0} (m : Exec env.store.State A) → Steps CoreAdvances (on_store_of m)
  asked m = store-Moves m (Asks-Advances _ (on_store-Asks m))

  modified :
      (f : Core env → Core env)
      → ((c : Core env) → Advances c.poset (f c).poset)
      → Steps CoreAdvances (modify f)
  modified f h = Steps-modify order f h

  bind-CoreAdvances :
      {A B : Type 0} (m : Exec (Core env) A) (f : A → Exec (Core env) B)
      → Steps CoreAdvances m
      → ((a : A) → Steps CoreAdvances (f a))
      → Steps CoreAdvances (m >>= f)
  bind-CoreAdvances m f = bind-Moves order m f

  pub run_consensus-CoreAdvances : (fuel : ℕ) → Steps CoreAdvances (run_consensus {env = env} fuel)
  unfolding run_consensus
  run_consensus-CoreAdvances fuel = on_poset-Moves _ (consensus_steps-Advances fuel)

  next_flag_table-CoreAdvances :
      (other_head : String) → Steps CoreAdvances (next_flag_table {env = env} other_head)
  unfolding next_flag_table
  next_flag_table-CoreAdvances other_head = bind-CoreAdvances _ _ (Steps-gets order _) (λ head.
      Steps-attempt order _ _ (asked _) (λ self_parent.
        Steps-attempt order _ _ (asked _) (λ other_parent.
          bind-CoreAdvances _ _ (labelled-Moves order _ _ (Steps-lift order _))
            (λ own. labelled-Moves order _ _ (Steps-lift order _)))))

  module _ (signer : Signer) where
    insert_event-CoreAdvances :
        (event : Event) (wire_info : Bool)
        → Steps CoreAdvances (insert_event {env = env} signer event wire_info)
    unfolding insert_event note_event set_head
    insert_event-CoreAdvances event wire_info =
        bind-CoreAdvances _ _ (on_poset-Moves _ (insert_event-Advances event wire_info)) (λ _.
          bind-CoreAdvances _ _
            (if-Moves order _ _ _ (modified _ (λ c. still refl refl refl)) (Steps-pure order tt))
            (λ _. bind-CoreAdvances _ _ (modified _ (λ c. still refl refl refl)) (λ _.
              attempt-Moves order _ _ (asked _) (λ other. modified _ (λ c. still refl refl refl))
                (λ _. Steps-pure order tt))))

    sign_and_insert-CoreAdvances :
        (event : Event) → Steps CoreAdvances (sign_and_insert_self_event {env = env} signer event)
    unfolding sign_and_insert_self_event wire_info_and_sign
    sign_and_insert-CoreAdvances event =
        bind-CoreAdvances _ _
          (bind-CoreAdvances _ _ (on_poset-Moves _ (Asks-Advances _ (with_wire_info-Asks event)))
            (λ full. bind-CoreAdvances _ _ (Steps-lift order _) (λ _. Steps-pure order _)))
          (λ signed. insert_event-CoreAdvances signed true)

    pub add_self_event_block-CoreAdvances :
        (other_head : String)
        → Steps CoreAdvances (add_self_event_block {env = env} signer other_head)
    unfolding add_self_event_block take_from_pools
    add_self_event_block-CoreAdvances other_head =
        bind-CoreAdvances _ _ (next_flag_table-CoreAdvances other_head) (λ table.
          bind-CoreAdvances _ _ (Steps-gets order _) (λ new_head.
            bind-CoreAdvances _ _ (labelled-Moves order _ _ (sign_and_insert-CoreAdvances new_head))
              (λ _. modified _ (λ c. still refl refl refl))))

    sync_event-CoreAdvances :
        (known : Map ℤ ℤ) (we : WireEvent)
        → Steps CoreAdvances (sync_event {env = env} signer known we)
    unfolding sync_event
    sync_event-CoreAdvances known we =
        bind-CoreAdvances _ _ (on_poset-Moves _ (Asks-Advances _ (read_wire_info-Asks we))) (λ ev.
          bind-CoreAdvances _ _
            (if-Moves order _ _ _ (insert_event-CoreAdvances _ false) (Steps-pure order tt))
            (λ _. Steps-pure order _))

    sync_events-CoreAdvances :
        (known : Map ℤ ℤ) (wes : List WireEvent) (other_head : String)
        → Steps CoreAdvances (sync_events {env = env} signer known wes other_head)
    unfolding sync_events
    sync_events-CoreAdvances known [] other_head = Steps-pure order other_head
    sync_events-CoreAdvances known (we ∷ wes) other_head =
        bind-CoreAdvances _ _ (sync_event-CoreAdvances known we)
          (λ hash. sync_events-CoreAdvances known wes hash)

    pub sync-CoreAdvances :
        (events : List WireEvent) → Steps CoreAdvances (sync {env = env} signer events)
    unfolding sync
    sync-CoreAdvances events = bind-CoreAdvances _ _ (asked _) (λ known.
        bind-CoreAdvances _ _ (sync_events-CoreAdvances known events "") (λ other_head.
          bind-CoreAdvances _ _ (Steps-gets order _) (λ news.
            if-Moves order news _ _ (add_self_event_block-CoreAdvances other_head)
              (Steps-pure order tt))))
