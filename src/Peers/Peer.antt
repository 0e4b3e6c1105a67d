-- ===== src/Peers/Peer.antt =====
-- src/peers/peer.go, and `Hash32` of src/common/hash32.go, the 32-bit FNV-1a hash.
use Prim.Native.Nat.{bit_xor}
use Prim.Native.Char.{code}
use gource.Prelude.{
  ℕ, ◌+◌, ◌-◌, ◌*◌, ◌%◌, ◌^◌, String, Bool, ◌&&◌, not, List, [], ◌∷◌, Option, none, some, ℤ, pos,
  negsuc, leb, eqb_ℤ, ◌==◌, if◌then◌else◌, string_eq, add64,
}

pub record Peer : Type 0 where
  pub id : ℤ
  pub net_addr : String
  pub pub_key_hex : String
  pub used : ℤ

-- fnv.New32a
unfoldable pub hash32 : ℕ → List ℕ → ℕ
hash32 h [] = h
hash32 h (b ∷ bs) = hash32 ((bit_xor h b * 16777619) % 2 ^ 32) bs

abbrev pub offset32 : ℕ
offset32 = 2166136261

hex_digit : ℕ → Option ℕ
hex_digit c =
    if leb b'0' c && leb c b'9'
    then some (c - b'0')
    else if leb b'a' c && leb c b'f'
    then some (c - b'a' + 10)
    else if leb b'A' c && leb c b'F'
    then some (c - b'A' + 10)
    else none

join_digits : Option ℕ → Option ℕ → Option (List ℕ) → Option (List ℕ)
join_digits (some a) (some b) (some bs) = some ((16 * a + b) ∷ bs)
join_digits _ _ _ = none

-- hex.DecodeString
unfoldable pub decode_hex : String → Option (List ℕ)
unfolding hex_digit join_digits
decode_hex String.[] = some []
decode_hex (String.◌∷◌ a String.[]) = none
decode_hex (String.◌∷◌ a (String.◌∷◌ b s)) =
    join_digits (hex_digit (code a)) (hex_digit (code b)) (decode_hex s)

-- `s[2:]`; a text shorter than that would panic, and stands for itself here.
abbrev pub skip_prefix : String → String
skip_prefix (String.◌∷◌ a (String.◌∷◌ b s)) = s
skip_prefix s = s

abbrev pub pub_key_bytes : Peer → Option (List ℕ)
pub_key_bytes p = decode_hex (skip_prefix p.pub_key_hex)

-- A key that is not hexadecimal leaves the id as it was; the error is dropped by every caller.
unfoldable pub compute_id : Peer → Peer
compute_id p = elim (pub_key_bytes p) [
  | none ↦ p
  | some bytes ↦ record p { id = pos (hash32 offset32 bytes) }
]

unfoldable pub new_peer : String → String → Peer
new_peer pub_key_hex net_addr =
    compute_id (record { id = pos 0; net_addr = net_addr; pub_key_hex = pub_key_hex; used = pos 0 })

unfoldable pub equals : Peer → Peer → Bool
equals a b = eqb_ℤ a.id b.id && a.net_addr == b.net_addr && a.pub_key_hex == b.pub_key_hex

unfoldable pub exclude_from : ℤ → ℤ → List Peer → String → ℤ × List Peer
exclude_from i index [] peer = (index, [])
exclude_from i index (p ∷ ps) peer =
    if not (p.net_addr == peer) && not (p.pub_key_hex == peer)
    then (let (found, others) = exclude_from (add64 i (pos 1)) index ps peer in (found, p ∷ others))
    else exclude_from (add64 i (pos 1)) i ps peer

-- The position of the last peer that was left out, or -1, and the others.
unfoldable pub exclude_peer : List Peer → String → ℤ × List Peer
unfolding exclude_from
exclude_peer peers peer = exclude_from (pos 0) (negsuc 0) peers peer
