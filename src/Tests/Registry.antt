-- ===== src/Tests/Registry.antt =====
-- The theorems on src/peers/peers.go at concrete inputs.
use mathlib.Core.List.Perm
use gource.Prelude.{◌≡◌, refl, [], none, some, pos, lookup, insert, int_eq, string_eq}
use gource.Peers.Peer.{Peer}
use gource.Peers.Registry.{new_peers, add_peer, remove_peer, with_id, internal_sort, add_peer_raw}
use gource.Peers.Registry.Lookup.{IsConsistent, add_peer-IsConsistent, remove_peer-IsConsistent}

abbrev alice : Peer
alice = record { id = pos 7; net_addr = "a:1"; pub_key_hex = "0xA1"; used = pos 0 }

abbrev bob : Peer
bob = record { id = pos 3; net_addr = "b:1"; pub_key_hex = "0xB2"; used = pos 0 }

no_peers-IsConsistent : IsConsistent new_peers
unfolding new_peers lookup
no_peers-IsConsistent = record {
  by_key = λ k p h. cc;
  by_id = λ i p h. cc;
  ordered = record { ascending = tt; complete = Perm.refl [] };
}

add_peer-IsConsistent_example :
    IsConsistent (add_peer new_peers alice)
    × (lookup "0xA1" (add_peer new_peers alice).by_pub_key ≡ some (with_id alice))
    × (lookup (with_id alice).id (add_peer new_peers alice).by_id ≡ some (with_id alice))
unfolding new_peers lookup
add_peer-IsConsistent_example = add_peer-IsConsistent no_peers-IsConsistent alice refl refl

one_peer-IsConsistent : IsConsistent (add_peer new_peers alice)
unfolding new_peers lookup
one_peer-IsConsistent = (add_peer-IsConsistent no_peers-IsConsistent alice refl refl).0

remove_peer-IsConsistent_example :
    IsConsistent (remove_peer (add_peer new_peers alice) alice)
    × (lookup "0xA1" (remove_peer (add_peer new_peers alice) alice).by_pub_key ≡ none)
    × (lookup (pos 7) (remove_peer (add_peer new_peers alice) alice).by_id ≡ none)
unfolding new_peers lookup insert add_peer add_peer_raw internal_sort with_id
remove_peer-IsConsistent_example = remove_peer-IsConsistent one_peer-IsConsistent alice refl
