-- ===== src/Tests/Disk.antt =====
-- The theorems on src/poset/badger_store.go at concrete inputs: a database that is a map, with an encoding
-- of the rounds that have no events.
use gource.Prelude.{
  ◌≡◌, ◌≢◌, refl, inl, inr, ap, sym, ◌∙◌, String, Bool, true, false, List, [], ◌∷◌, Option, none,
  some, ℤ, pos, negsuc, Map, lookup, insert, string_eq, int_eq, lookup-insert, ne_of_test,
  if◌then◌else◌, ◌==◌,
}
use gource.Common.Errors.{Result, ok, err, message, ok-injective, ◌>>=◌}
use gource.Common.Exec.{Exec}
use gource.Poset.RoundInfo.{RoundInfo, RoundEvent}
use gource.Poset.Lru.{unbounded}
use gource.Poset.Inmem
use gource.Poset.Inmem.Rounds
use gource.Poset.Database.{Database, Format, Formats, db_key_not_found, written, round_key}
use gource.Poset.Database.Records
use gource.Poset.Badger.{BadgerStore, set_round, get_round, known_of}
use gource.Poset.Badger.ReadThrough.{Coherent, set_round-reads}
use gource.Tests.Consensus.{hash_of, poset}

abbrev from_map : Option String → Result String
from_map none = err db_key_not_found
from_map (some v) = ok v

abbrev find : String → Map String String → Result String
find key s = from_map (lookup key s)

abbrev set_all : List (String × String) → Map String String → Map String String
set_all [] s = s
set_all ((k, v) ∷ ws) s = set_all ws (insert k v s)

find-set_all :
    (ws : List (String × String)) (s : Map String String) (key : String)
    → (find key (set_all ws s) >>= ok) ≡ written ws key (find key s >>= ok)
unfolding written
find-set_all [] s key = refl
find-set_all ((k, v) ∷ ws) s key =
    find-set_all ws (insert k v s) key ∙ ap (written ws key) (found k v s key)
  where
    chosen :
        (b : Bool) (v : String) (o : Option String)
        → (from_map (if b then some v else o) >>= ok) ≡ (if b then ok v else (from_map o >>= ok))
    chosen true v o = refl
    chosen false v o = refl

    found :
        (k v : String) (s : Map String String) (key : String)
        → (find key (insert k v s) >>= ok) ≡ (if k == key then ok v else (find key s >>= ok))
    found k v s key =
        ap (λ o. from_map o >>= ok) (lookup-insert k key v s) ∙ chosen (k == key) v (lookup key s)

abbrev database : Database
database = record {
  State = Map String String;
  Item = String;
  find = find;
  value = λ v. ok v;
  commit = λ ws s. (ok tt, set_all ws s);
  committed = λ ws s key done. find-set_all ws s key;
  discarded = λ ws s e failed. cc;
}

-- Rounds without events.
encode : List (String × RoundEvent) → Bool → Result String
encode [] true = ok "t"
encode [] false = ok "f"
encode (e ∷ es) queued = err (message "not encoded")

decode : String → Result RoundInfo
decode bytes =
    if bytes == "t"
    then ok (record { events = []; queued = true })
    else if bytes == "f"
    then ok (record { events = []; queued = false })
    else err (message "not decoded")

encode-decode :
    (events : List (String × RoundEvent)) (queued : Bool) (bytes : String)
    → encode events queued ≡ ok bytes
    → decode bytes ≡ ok (record { events = events; queued = queued })
unfolding encode decode
encode-decode [] true bytes h = rw (← ok-injective h) refl
encode-decode [] false bytes h = rw (← ok-injective h) refl
encode-decode (e ∷ es) queued bytes h = cc

abbrev nothing : {A : Type 0} → Format A
nothing = record {
  marshal = λ a. err (message "not encoded");
  unmarshal = λ bytes. err (message "not decoded");
  back = λ a bytes h. cc;
}

abbrev formats : Formats
formats = record {
  events = nothing;
  rounds = record {
    marshal = λ info. encode info.events info.queued;
    unmarshal = decode;
    back = λ info bytes h. encode-decode info.events info.queued bytes h;
  };
  roots = nothing;
  blocks = nothing;
  frames = nothing;
}

abbrev disk : BadgerStore unbounded database
disk = record {
  participants = poset.participants;
  inmem = poset.store;
  db = [];
  path = "";
  need_bootstrap = false;
}

abbrev queued_round : RoundInfo
queued_round = record { events = []; queued = true }

stored : (set_round unbounded database formats hash_of (pos 7) queued_round disk).0 ≡ ok tt
unfolding set_round gource.Poset.Badger.on_inmem gource.Poset.Badger.on_db gource.Common.Exec.on
    gource.Common.Exec.◌>>=◌ gource.Poset.Inmem.Rounds.set_round
    gource.Poset.Database.Records.set_round gource.Poset.Database.Records.set
    gource.Poset.Database.Records.transact encode
stored = refl

keys_differ : round_key (pos 7) ≢ round_key (pos 8)
unfolding round_key gource.Poset.Database.padded gource.Prelude.format_int
keys_differ = ne_of_test (round_key (pos 7)) (round_key (pos 8)) refl

missing : Coherent unbounded database formats hash_of (pos 8) disk
unfolding gource.Poset.Inmem.Rounds.get_round gource.Poset.Inmem.Rounds.set_round
    gource.Poset.Inmem.Rounds.set_block gource.Poset.Inmem.new_inmem gource.Poset.Inmem.found lookup
    insert gource.Poset.State.new_poset gource.Common.Exec.◌>>=◌ gource.Common.Exec.attempt
    gource.Poset.Inmem.Rounds.get_block
missing = inr (_, refl)

set_round-reads_example :
    ((get_round unbounded database formats hash_of
        (pos 7)
        (set_round unbounded database formats hash_of (pos 7) queued_round disk).1).0
      ≡ ok queued_round)
    × Coherent unbounded database formats hash_of
        (pos 7)
        (set_round unbounded database formats hash_of (pos 7) queued_round disk).1
    × ((get_round unbounded database formats hash_of
          (pos 8)
          (set_round unbounded database formats hash_of (pos 7) queued_round disk).1).0
        ≡ (get_round unbounded database formats hash_of (pos 8) disk).0)
    × Coherent unbounded database formats hash_of
        (pos 8)
        (set_round unbounded database formats hash_of (pos 7) queued_round disk).1
set_round-reads_example =
    set_round-reads unbounded database formats hash_of (pos 7) (pos 8) queued_round disk stored
      keys_differ missing
