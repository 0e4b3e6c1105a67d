-- ===== src/Poset/Wire/RoundTrip.antt =====
-- `ReadWireInfo` of what `ToWire` has written, over the store in memory.
use gource.Prelude.{
  if◌then◌else◌, Option, ◌≡◌, refl, sym, ap, ◌∙◌, ◌⊎◌, inl, inr, ℕ, String, true, false, List, [],
  ◌∷◌, map, some, ℤ, pos, leb_ℤ, ltb_ℤ, lookup, int_eq, ◌≢◌,
}
use gource.Common.Errors.{Error, Result, ok, message}
use gource.Common.Exec.Results.{bind_result, attempt_result, on_result}
use gource.Common.Exec.{Exec, pure, raise, gets, ◌>>=◌}
use gource.Peers.Peer.{Peer, decode_hex, skip_prefix}
use gource.Poset.Event.{
  Event, BlockSignature, block_signatures, self_parent, other_parent, root_self_parent,
  lamport_timestamp_nil, round_nil,
}
use gource.Poset.State.{Env, Poset, on_store}
use gource.Poset.Wire.{
  signature_to_wire, signature_of, signatures_by, wire_block_signatures, to_wire, event_of_wire,
  known_peer, some_or, read_self_parent, read_other_parent, read_wire_info, is_nil,
}

-- Signatures of one validator, as those that an event carries.
abbrev pub AllBy : List ℕ → List BlockSignature → Type 0
AllBy validator [] = Unit
AllBy validator (bs ∷ l) = (bs.validator ≡ validator) × AllBy validator l

signatures_back :
    (validator : List ℕ) (l : List BlockSignature)
    → AllBy validator l
    → map (signature_of validator) (map signature_to_wire l) ≡ l
signatures_back validator [] a = refl
signatures_back validator (bs ∷ l) a =
    ap (λ v. record bs { validator = v } ∷ map (signature_of validator) (map signature_to_wire l))
      (sym a.0)
    ∙ ap (λ l. bs ∷ l) (signatures_back validator l a.1)

-- What the receiver works out for itself is not sent.
abbrev pub as_received : Event → Event
as_received e = record e {
  topological_index = pos 0;
  lamport_timestamp = lamport_timestamp_nil;
  round = round_nil;
  round_received = round_nil;
}

event_back :
    (e : Event)
    → AllBy e.body.creator (block_signatures e)
    → event_of_wire (to_wire e) e.body.creator (self_parent e) (other_parent e) ≡ as_received e
unfolding event_of_wire to_wire signatures_by wire_block_signatures
event_back e a =
    ap (λ l. record (as_received e) { body = record e.body { block_signatures = l } })
      (signatures_back e.body.creator (block_signatures e) a)

not_nil : (l : List ℕ) → l ≢ [] → is_nil l ≡ false
unfolding is_nil
not_nil [] h = absurd (h refl)
not_nil (b ∷ bs) h = refl

has_flags : (e : Event) → e.flag_table ≢ [] → is_nil (to_wire e).flag_table ≡ false
unfolding to_wire
has_flags e h = not_nil e.flag_table h

module _ {env : Env} where
  -- The store answers with the hash, and is not changed by the question.
  abbrev pub Names : Poset env → String → ℤ → String → Type 0
  Names s key index hash = env.store.participant_event key index s.store ≡ (ok hash, s.store)

  -- The wire information of the event is what the state has under its names: the creator's id; the index
  -- of the self-parent, which is negative where that is the base root; the creator and the index of the
  -- other-parent, negative where there is none.
  pub record HasNames (s : Poset env) (e : Event) : Type 0 where
    pub creator : Peer
    pub known : lookup e.creator_id s.participants.by_id ≡ some creator
    pub key : decode_hex (skip_prefix creator.pub_key_hex) ≡ some e.body.creator
    pub self :
        ((leb_ℤ (pos 0) e.self_parent_index ≡ true)
          × Names s creator.pub_key_hex e.self_parent_index (self_parent e))
        ⊎ ((leb_ℤ (pos 0) e.self_parent_index ≡ false)
            × (self_parent e ≡ root_self_parent e.creator_id))
    pub other :
        ((ltb_ℤ e.other_parent_index (pos 0) ≡ true) × (other_parent e ≡ ""))
        ⊎ ((ltb_ℤ e.other_parent_index (pos 0) ≡ false)
            × (peer : Peer) × (lookup e.other_parent_creator_id s.participants.by_id ≡ some peer)
            × Names s peer.pub_key_hex e.other_parent_index (other_parent e))

  asked :
      {A : Type 0} (m : Exec env.store.State A) (r : Result A) (s : Poset env)
      → m s.store ≡ (r, s.store)
      → on_store m s ≡ (r, s)
  unfolding on_store
  asked m r s h = on_result (λ t. t.store) (λ f t. record t { store = f }) m r s s.store h

  or_found :
      {A : Type 0} (e : Error) (o : Option A) (a : A) (s : Poset env)
      → o ≡ some a
      → some_or e o s ≡ (ok a, s)
  unfolding some_or pure
  or_found e o a s h = ap (λ o. some_or e o s) h

  peer_found :
      (e : Error) (id : ℤ) (p : Peer) (s : Poset env)
      → lookup id s.participants.by_id ≡ some p
      → known_peer e id s ≡ (ok p, s)
  unfolding known_peer gets ◌>>=◌
  peer_found e id p s h = or_found e (lookup id s.participants.by_id) p s h

  pure_result : {A : Type 0} (a : A) (s : Poset env) → pure a s ≡ (ok a, s)
  unfolding pure
  pure_result a s = refl

  module _ (s : Poset env) (e : Event) (h : HasNames s e) where
    self_back : read_self_parent h.creator (to_wire e) s ≡ (ok (self_parent e), s)
    unfolding read_self_parent to_wire
    self_back = elim h.self [
      | inl (here, name) ↦
          rw here
            (asked (env.store.participant_event h.creator.pub_key_hex e.self_parent_index) _ s name)
      | inr (there, root) ↦ rw (there, root) (pure_result (root_self_parent e.creator_id) s)
    ]

    other_back : read_other_parent h.creator (to_wire e) s ≡ (ok (other_parent e), s)
    unfolding read_other_parent to_wire
    other_back = elim h.other [
      | inl (no_parent, empty) ↦ rw (no_parent, empty) (pure_result "" s)
      | inr (index, peer, found, name) ↦ rw index (
          bind_result (known_peer _ _) _ peer s s (peer_found _ _ peer s found)
          ∙ attempt_result (on_store _) _ (ok (other_parent e)) s s (asked _ _ s name)
          ∙ pure_result (other_parent e) s)
    ]

    last :
        AllBy e.body.creator (block_signatures e)
        → e.flag_table ≢ []
        → (if is_nil (to_wire e).flag_table
              then raise (message "flag table is null")
              else pure (event_of_wire (to_wire e) e.body.creator (self_parent e) (other_parent e)))
            s
          ≡ (ok (as_received e), s)
    unfolding pure
    last a filled = rw (has_flags e filled) (ap (λ e. (ok e, s)) (event_back e a))

    -- A wire event is read back as the event that it was made from, but for what the receiver works out for itself,
    -- and nothing of the state changes. That is so where the state has the names of the wire information, the block
    -- signatures are the creator's, and the flag table is not empty.
    pub read_wire_info-to_wire :
        AllBy e.body.creator (block_signatures e)
        → e.flag_table ≢ []
        → read_wire_info (to_wire e) s ≡ (ok (as_received e), s)
    unfolding read_wire_info to_wire
    read_wire_info-to_wire a filled =
        bind_result (known_peer _ _) _ h.creator s s (peer_found _ _ h.creator s h.known)
        ∙ bind_result (some_or _ _) _ e.body.creator s s (or_found _ _ e.body.creator s h.key)
        ∙ bind_result (read_self_parent _ _) _ (self_parent e) s s self_back
        ∙ bind_result (read_other_parent _ _) _ (other_parent e) s s other_back
        ∙ last a filled
