-- ===== src/Node/Selector.antt =====
-- src/node/peer_selector.go and src/node/peer_selector2.go: whom a node gossips with next. The number
-- that `rand.Intn` draws is a parameter, and is reduced to its range; without a peer to choose from
-- `rand.Intn` panics.
pub mod Random
pub mod Sorted
pub mod Smart
use gource.Prelude.{
  ℕ, zero, suc, ◌+◌, ◌-◌, ◌%◌, String, Bool, true, false, List, [], ◌∷◌, map, Option, none, some, ℤ,
  pos, add64, ltb, ltb_ℤ, leb_ℤ, eqb_ℤ, Map, length, drop, get_elem?, last?, lookup, if◌then◌else◌,
  ◌==◌, string_eq,
}
use gource.Common.Errors.{Error, Result, ok, err, panic, ◌>>=◌}
use gource.Peers.Peer.{Peer, exclude_peer}
use gource.Peers.Registry.{Peers, to_peer_slice, values}

unfoldable pub or_panic {ℓ} : {A : Type ℓ} → Option A → Result A
or_panic none = err panic
or_panic (some a) = ok a

-- `peers[rand.Intn(len(peers))]`
unfoldable pub choose : ℕ → List Peer → Result Peer
unfolding or_panic
choose draw [] = err panic
choose draw (p ∷ ps) = or_panic (get_elem? (p ∷ ps) (draw % length (p ∷ ps)))

-- The peers but one, where there is more than one.
unfoldable pub without : String → List Peer → List Peer
without peer ps = if ltb 1 (length ps) then (exclude_peer ps peer).1 else ps

pub record RandomPeerSelector : Type 0 where
  pub peers : Peers
  pub local_addr : String
  pub last : String

unfoldable pub new_random : Peers → String → RandomPeerSelector
new_random participants local_addr = record {
  peers = participants;
  local_addr = local_addr;
  last = "";
}

-- `UpdateLast`; the smart selector has the same one.
unfoldable pub update_last : String → RandomPeerSelector → RandomPeerSelector
update_last peer ps = record ps { last = peer }

-- The two exclusions, the second of which is tried only after the first one.
unfoldable pub random_candidates : RandomPeerSelector → List Peer
random_candidates ps =
    let all = to_peer_slice ps.peers in
    if ltb 1 (length all) then without ps.last (exclude_peer all ps.local_addr).1 else all

unfoldable pub random_next : ℕ → RandomPeerSelector → Result Peer
random_next draw ps = choose draw (random_candidates ps)

-- sort.Sort(ByUsed(res)): the most used one first. Go leaves the order of equals open.
unfoldable pub insert_by_used : Peer → List Peer → List Peer
insert_by_used p [] = p ∷ []
insert_by_used p (q ∷ qs) =
    let rest = insert_by_used p qs in if ltb_ℤ p.used q.used then q ∷ rest else p ∷ q ∷ qs

unfoldable pub sort_by_used : List Peer → List Peer
unfolding insert_by_used
sort_by_used [] = []
sort_by_used (p ∷ ps) = insert_by_used p (sort_by_used ps)

-- `ToPeerByUsedSlice`
unfoldable pub to_peer_by_used_slice : Peers → List Peer
to_peer_by_used_slice ps = sort_by_used (values ps.by_pub_key)

pub record SmartPeerSelector : Type 0 where
  pub peers : Peers
  pub local_addr : String
  pub last : String

-- The peers are shared by pointer, so that a change of the one with the key shows wherever it is held.
replace_peer : String → (Peer → Peer) → Peer → Peer
replace_peer key f p = if p.pub_key_hex == key then f p else p

unfoldable pub use_peer : String → Peers → Peers
unfolding replace_peer
use_peer key ps =
    let f = replace_peer key (λ p. record p { used = add64 p.used (pos 1) }) in
    record {
      sorted = map f ps.sorted;
      by_pub_key = map (λ e. (e.0, f e.1)) ps.by_pub_key;
      by_id = map (λ e. (e.0, f e.1)) ps.by_id;
    }

-- `for k = 0; peers[k].Used > minUsed; k++ {}` and `peers[k:]`
unfoldable pub drop_used : ℤ → List Peer → List Peer
drop_used min [] = []
drop_used min (p ∷ ps) = if ltb_ℤ min p.used then drop_used min ps else p ∷ ps

-- The least used ones of a slice that is sorted. The loop over the flag table that follows calls
-- `ExcludePeer` without a use of its result, and so changes nothing.
unfoldable pub least_used : List Peer → List Peer
least_used ps = elim (last? ps) [ none ↦ ps | some q ↦ drop_used q.used ps ]

-- `ToPeerByUsedSlice()[1:]`, and then as long as there is more than one.
unfoldable pub after_first : List Peer → Result (List Peer)
after_first [] = err panic
after_first (p ∷ ps) = ok ps

-- Who is left after the exclusions.
unfoldable pub smart_others : String → String → List Peer → List Peer
unfolding without
smart_others local_addr last ps =
    if ltb 1 (length ps) then without last (exclude_peer ps local_addr).1 else ps

unfoldable pub smart_candidates : String → String → List Peer → List Peer
smart_candidates local_addr last ps =
    let others = smart_others local_addr last ps in
    if ltb 1 (length others) then least_used others else others

unfoldable pub smart_next : ℕ → SmartPeerSelector → Result (Peer × SmartPeerSelector)
smart_next draw ps = do
  selectable ← after_first (to_peer_by_used_slice ps.peers)
  p ← choose draw (smart_candidates ps.local_addr ps.last selectable)
  ok (p, record ps { peers = use_peer p.pub_key_hex ps.peers })
