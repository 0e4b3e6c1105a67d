-- ===== src/Poset/Database.antt =====
-- src/poset/badger_store.go: the keys, and the methods on the database. BadgerDB and protobuf are not part
-- of the repository: parameters, with what their documentation promises. A byte slice of the database is
-- kept as the text of the same bytes.
pub mod Records
pub mod RoundTrips
use Prim.Native.String
use gource.Prelude.{
  ℕ, zero, suc, ◌+◌, ◌-◌, ◌≡◌, refl, String, Bool, true, false, List, [], ◌∷◌, ◌++◌, Option, none,
  some, ℤ, pos, negsuc, add64, format_int, Map, lookup, insert, string_eq, ◌==◌, if◌then◌else◌,
}
use gource.Common.Errors.{
  Error, Result, ok, err, message, panic, no_fuel, new_store_err, key_not_found, ◌>>=◌,
}
use gource.Common.Exec.{Exec}
use gource.Poset.Event.{Event}
use gource.Poset.Block.{Block, Frame, Root}
use gource.Poset.RoundInfo.{RoundInfo}

-- badger.ErrKeyNotFound
abbrev pub db_key_not_found : Error
db_key_not_found = message "Key not found"

-- A value after the writes of a transaction, in their order.
unfoldable pub written : List (String × String) → String → Result String → Result String
written [] key old = old
written ((k, v) ∷ ws) key old = written ws key (if k == key then ok v else old)

-- A `View` finds an item and reads its value. A transaction sets keys and is committed: all of it, or
-- nothing where that fails.
pub record Database : Type 1 where
  pub State : Type 0
  pub Item : Type 0
  pub find : String → State → Result Item
  pub value : Item → Result String
  pub commit : List (String × String) → Exec State Unit
  pub committed :
      (ws : List (String × String)) (s : State) (key : String)
      → (commit ws s).0 ≡ ok tt
      → (find key (commit ws s).1 >>= value) ≡ written ws key (find key s >>= value)
  pub discarded :
      (ws : List (String × String)) (s : State) (e : Error)
      → (commit ws s).0 ≡ err e
      → (commit ws s).1 ≡ s

-- The encodings: what was marshalled is unmarshalled as it was.
pub record Format (A : Type 0) : Type 0 where
  pub marshal : A → Result String
  pub unmarshal : String → Result A
  pub back : (a : A) (bytes : String) → marshal a ≡ ok bytes → unmarshal bytes ≡ ok a

pub record Formats : Type 0 where
  pub events : Format Event
  pub rounds : Format RoundInfo
  pub roots : Format Root
  pub blocks : Format Block
  pub frames : Format Frame

text_length : String → ℕ
text_length String.[] = 0
text_length (String.◌∷◌ c s) = suc (text_length s)

zeros : ℕ → String → String
zeros zero s = s
zeros (suc n) s = String.◌++◌ "0" (zeros n s)

-- `%09d`
unfoldable pub padded : ℤ → String
unfolding text_length zeros
padded (pos n) = let t = format_int (pos n) in zeros (9 - text_length t) t
padded (negsuc n) =
    let t = format_int (pos (suc n)) in String.◌++◌ "-" (zeros (8 - text_length t) t)

unfoldable pub topological_event_key : ℤ → String
topological_event_key index = String.◌++◌ "topo_" (padded index)

unfoldable pub participant_key : String → String
participant_key participant = String.◌++◌ "participant_" participant

unfoldable pub participant_event_key : String → ℤ → String
participant_event_key participant index =
    String.◌++◌ participant (String.◌++◌ "__event_" (padded index))

unfoldable pub participant_root_key : String → String
participant_root_key participant = String.◌++◌ participant "_root"

unfoldable pub round_key : ℤ → String
round_key index = String.◌++◌ "round_" (padded index)

unfoldable pub block_key : ℤ → String
block_key index = String.◌++◌ "block_" (padded index)

unfoldable pub frame_key : ℤ → String
frame_key index = String.◌++◌ "frame_" (padded index)

-- Errors are compared by their texts.
unfoldable pub is_db_key_not_found : Error → Bool
is_db_key_not_found (message text) = text == "Key not found"
is_db_key_not_found (Error.store e) = false
is_db_key_not_found panic = false
is_db_key_not_found no_fuel = false

unfoldable pub map_error : {A : Type 0} → String → String → Result A → Result A
unfolding is_db_key_not_found
map_error name key (ok a) = ok a
map_error name key (err e) =
    if is_db_key_not_found e then err (new_store_err name key_not_found key) else err e
