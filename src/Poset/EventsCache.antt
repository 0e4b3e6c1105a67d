-- ===== src/Poset/EventsCache.antt =====
-- `ParticipantEventsCache` of src/poset/caches.go: the hashes of each participant's latest events.
use gource.Prelude.{ℕ, String, List, none, some, ℤ, Map, lookup, string_eq}
use gource.Common.Errors.{Result, ok, err, new_store_err, unknown_participant, ◌>>=◌}
use gource.Common.RollingIndexMap
use gource.Common.RollingIndexMap.{RollingIndexMap, new_rolling_index_map}
use gource.Peers.Registry.{Peers, to_id_slice}

pub record EventsCache : Type 0 where
  pub participants : Peers
  pub rim : RollingIndexMap String

unfoldable pub new_events_cache : ℕ → Peers → EventsCache
new_events_cache size participants = record {
  participants = participants;
  rim = new_rolling_index_map "ParticipantEvents" size (to_id_slice participants);
}

unfoldable pub participant_id : EventsCache → String → Result ℤ
participant_id pec participant = elim (lookup participant pec.participants.by_pub_key) [
  | none ↦ err (new_store_err "ParticipantEvents" unknown_participant participant)
  | some peer ↦ ok peer.id
]

-- The participant's events with an index above `skip_index`.
unfoldable pub get : EventsCache → String → ℤ → Result (List String)
get pec participant skip_index = do
  id ← participant_id pec participant
  RollingIndexMap.get pec.rim id skip_index

unfoldable pub get_item : EventsCache → String → ℤ → Result String
get_item pec participant index = do
  id ← participant_id pec participant
  RollingIndexMap.get_item pec.rim id index

unfoldable pub get_last : EventsCache → String → Result String
get_last pec participant = do
  id ← participant_id pec participant
  RollingIndexMap.get_last pec.rim id

-- `GetLastConsensus` has the same body.
unfoldable pub get_last_consensus : EventsCache → String → Result String
get_last_consensus pec participant = do
  id ← participant_id pec participant
  RollingIndexMap.get_last pec.rim id

set_at : EventsCache → Result ℤ → String → ℤ → Result (Unit {0}) × EventsCache
set_at pec (err e) hash index = (err e, pec)
set_at pec (ok id) hash index =
    let (r, rim) = RollingIndexMap.set_item pec.rim id hash index in (r, record pec { rim = rim })

unfoldable pub set_item : EventsCache → String → String → ℤ → Result (Unit {0}) × EventsCache
unfolding set_at
set_item pec participant hash index = set_at pec (participant_id pec participant) hash index

unfoldable pub known : EventsCache → Map ℤ ℤ
known pec = RollingIndexMap.known pec.rim

unfoldable pub reset : EventsCache → EventsCache
reset pec = record pec { rim = RollingIndexMap.reset pec.rim }

unfoldable pub import_from : EventsCache → EventsCache → Result EventsCache
import_from pec other = do
  rim ← RollingIndexMap.import_from pec.rim other.rim
  ok (record pec { rim = rim })
