-- ===== src/Peers/Registry.antt =====
-- src/peers/peers.go: the participants by public key and by id, and in the order of their ids. A
-- method that holds the mutex is one step. The listeners are the functions that the stores and the
-- poset register; they are called by `AddPeer`, after the step.
pub mod Sorted
pub mod Lookup
use gource.Prelude.{
  ℕ, String, Bool, true, false, List, [], ◌∷◌, map, Option, none, some, ℤ, pos, leb_ℤ, ltb_ℤ, eqb_ℤ,
  if◌then◌else◌, Map, lookup, insert, delete, length, int_eq, string_eq,
}
use gource.Peers.Peer.{Peer, compute_id}

pub record Peers : Type 0 where
  pub sorted : List Peer
  pub by_pub_key : Map String Peer
  pub by_id : Map ℤ Peer

unfoldable pub new_peers : Peers
new_peers = record { sorted = []; by_pub_key = []; by_id = [] }

-- sort.Sort(ByID(res)): Go leaves the order of equal ids open, and here it is that of the list.
unfoldable pub insert_by_id : Peer → List Peer → List Peer
insert_by_id p [] = p ∷ []
insert_by_id p (q ∷ qs) = if leb_ℤ p.id q.id then p ∷ q ∷ qs else q ∷ insert_by_id p qs

unfoldable pub sort_by_id : List Peer → List Peer
unfolding insert_by_id
sort_by_id [] = []
sort_by_id (p ∷ ps) = insert_by_id p (sort_by_id ps)

abbrev pub values : Map String Peer → List Peer
values m = map (λ e. e.1) m

unfoldable pub internal_sort : Peers → Peers
internal_sort ps = record ps { sorted = sort_by_id (values ps.by_pub_key) }

-- The peer as it is stored: with an id computed from its key, where it has none.
unfoldable pub with_id : Peer → Peer
with_id peer = if eqb_ℤ peer.id (pos 0) then compute_id peer else peer

unfoldable pub add_peer_raw : Peers → Peer → Peers
add_peer_raw ps peer = record ps {
  by_pub_key = insert peer.pub_key_hex (with_id peer) ps.by_pub_key;
  by_id = insert (with_id peer).id (with_id peer) ps.by_id;
}

add_all : Peers → List Peer → Peers
add_all ps [] = ps
add_all ps (peer ∷ source) = add_all (add_peer_raw ps peer) source

unfoldable pub new_peers_from_slice : List Peer → Peers
unfolding add_all
new_peers_from_slice source = internal_sort (add_all new_peers source)

unfoldable pub add_peer : Peers → Peer → Peers
add_peer ps peer = internal_sort (add_peer_raw ps peer)

unfoldable pub remove_peer : Peers → Peer → Peers
remove_peer ps peer = elim (lookup peer.pub_key_hex ps.by_pub_key) [
  | none ↦ ps
  | some _ ↦ internal_sort (record ps {
    by_pub_key = delete peer.pub_key_hex ps.by_pub_key;
    by_id = delete peer.id ps.by_id;
  })
]

abbrev pub to_peer_slice : Peers → List Peer
to_peer_slice ps = ps.sorted

unfoldable pub to_pub_key_slice : Peers → List String
to_pub_key_slice ps = map (λ p. p.pub_key_hex) ps.sorted

unfoldable pub to_id_slice : Peers → List ℤ
to_id_slice ps = map (λ p. p.id) ps.sorted

unfoldable pub len : Peers → ℕ
len ps = length ps.by_pub_key
