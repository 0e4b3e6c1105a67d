-- ===== src/Peers/Registry/Lookup.antt =====
-- The two maps of the registry agree.
use gource.Prelude.{
  ◌≡◌, ◌∙◌, none, some, ℤ, lookup, delete, int_eq, string_eq, lookup-insert, lookup-insert_self,
  lookup-delete, eqb_ℤ_iff, ==_refl, arith, String,
}
use text.Mathlib.TextEquality.{eq_iff}
use gource.Peers.Peer.{Peer, compute_id}
use gource.Peers.Registry.{Peers, with_id, add_peer_raw, add_peer, remove_peer, internal_sort}
use gource.Peers.Registry.Sorted.{IsOrdered, internal_sort-IsOrdered}

-- Both maps hold the same peers, each under its own key and its own id, and the slice is in order.
pub record IsConsistent (ps : Peers) : Type 0 where
  pub by_key :
      (k : String) (p : Peer)
      → lookup k ps.by_pub_key ≡ some p
      → (p.pub_key_hex ≡ k) × (lookup p.id ps.by_id ≡ some p)
  pub by_id :
      (i : ℤ) (p : Peer)
      → lookup i ps.by_id ≡ some p
      → (p.id ≡ i) × (lookup p.pub_key_hex ps.by_pub_key ≡ some p)
  pub ordered : IsOrdered ps

with_id-key : (p : Peer) → (with_id p).pub_key_hex ≡ p.pub_key_hex
unfolding with_id compute_id
with_id-key p = ground arith

module _ {ps : Peers} (c : IsConsistent ps) (peer : Peer) where
  -- In a consistent registry, a new peer with a new key and a new id is found under both after
  -- `AddPeer`, and the registry stays consistent.
  pub add_peer-IsConsistent :
      lookup peer.pub_key_hex ps.by_pub_key ≡ none
      → lookup (with_id peer).id ps.by_id ≡ none
      → IsConsistent (add_peer ps peer)
        × (lookup peer.pub_key_hex (add_peer ps peer).by_pub_key ≡ some (with_id peer))
        × (lookup (with_id peer).id (add_peer ps peer).by_id ≡ some (with_id peer))
  unfolding add_peer add_peer_raw internal_sort
  add_peer-IsConsistent new_key new_id = (
    record {
      by_key = λ k p h. ground (
        arith,
        lookup-insert peer.pub_key_hex k (with_id peer) ps.by_pub_key,
        lookup-insert (with_id peer).id p.id (with_id peer) ps.by_id,
        with_id-key peer,
        eq_iff peer.pub_key_hex k,
        eqb_ℤ_iff (with_id peer).id p.id,
        c.by_key k p,
      );
      by_id = λ i p h. ground (
        arith,
        lookup-insert (with_id peer).id i (with_id peer) ps.by_id,
        lookup-insert peer.pub_key_hex p.pub_key_hex (with_id peer) ps.by_pub_key,
        with_id-key peer,
        eqb_ℤ_iff (with_id peer).id i,
        eq_iff peer.pub_key_hex p.pub_key_hex,
        c.by_id i p,
      );
      ordered = internal_sort-IsOrdered (add_peer_raw ps peer);
    },
    lookup-insert_self peer.pub_key_hex (with_id peer) ps.by_pub_key,
    lookup-insert_self (with_id peer).id (with_id peer) ps.by_id,
  )

  removed : Peers
  removed = record ps {
    by_pub_key = delete peer.pub_key_hex ps.by_pub_key;
    by_id = delete peer.id ps.by_id;
  }

  removed-by_key :
      lookup peer.pub_key_hex ps.by_pub_key ≡ some peer
      → (k : String) (p : Peer) → lookup k removed.by_pub_key ≡ some p
      → (p.pub_key_hex ≡ k) × (lookup p.id removed.by_id ≡ some p)
  unfolding removed
  removed-by_key there k p h = ground (
    arith,
    lookup-delete peer.pub_key_hex k ps.by_pub_key,
    lookup-delete peer.id p.id ps.by_id,
    eq_iff peer.pub_key_hex k,
    eqb_ℤ_iff peer.id p.id,
    c.by_key k p,
    c.by_key peer.pub_key_hex peer there,
  )

  removed-by_id :
      lookup peer.pub_key_hex ps.by_pub_key ≡ some peer
      → (i : ℤ) (p : Peer) → lookup i removed.by_id ≡ some p
      → (p.id ≡ i) × (lookup p.pub_key_hex removed.by_pub_key ≡ some p)
  unfolding removed
  removed-by_id there i p h = ground (
    arith,
    lookup-delete peer.id i ps.by_id,
    lookup-delete peer.pub_key_hex p.pub_key_hex ps.by_pub_key,
    eq_iff peer.pub_key_hex p.pub_key_hex,
    eqb_ℤ_iff peer.id i,
    c.by_id i p,
    c.by_key peer.pub_key_hex peer there,
  )

  -- In a consistent registry, a registered peer is found under neither its key nor its id after
  -- `RemovePeer`, and the registry stays consistent.
  pub remove_peer-IsConsistent :
      lookup peer.pub_key_hex ps.by_pub_key ≡ some peer
      → IsConsistent (remove_peer ps peer)
        × (lookup peer.pub_key_hex (remove_peer ps peer).by_pub_key ≡ none)
        × (lookup peer.id (remove_peer ps peer).by_id ≡ none)
  unfolding remove_peer internal_sort removed
  remove_peer-IsConsistent there =
      rw (there, remove_peer)
        (
          record {
            by_key = removed-by_key there;
            by_id = removed-by_id there;
            ordered = internal_sort-IsOrdered removed;
          },
          lookup-delete peer.pub_key_hex peer.pub_key_hex ps.by_pub_key
              ∙ rw (==_refl peer.pub_key_hex),
          lookup-delete peer.id peer.id ps.by_id ∙ rw (==_refl peer.id),
        )
