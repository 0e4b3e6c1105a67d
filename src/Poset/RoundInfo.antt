-- ===== src/Poset/RoundInfo.antt =====
-- src/poset/roundInfo.go: what is known of the events of one round. A value of the map of events is
-- a pointer in Go; every method writes the entry that it changed back, so the values are records.
pub mod Fame
use gource.Prelude.{
  ℕ, String, Bool, true, false, ◌&&◌, ◌||◌, not, List, [], ◌∷◌, Option, none, some, if◌then◌else◌,
  length, eqb, Map, lookup, insert, string_eq, ℤ,
}

pub data Trilean : Type 0 where
  undefined yea nay : Trilean

abbrev pub is_undefined : Trilean → Bool
is_undefined undefined = true
is_undefined yea = false
is_undefined nay = false

abbrev pub is_yea : Trilean → Bool
is_yea yea = true
is_yea undefined = false
is_yea nay = false

abbrev pub same_trilean : Trilean → Trilean → Bool
same_trilean undefined undefined = true
same_trilean yea yea = true
same_trilean nay nay = true
same_trilean _ _ = false

pub record RoundEvent : Type 0 where
  pub consensus : Bool
  pub witness : Bool
  pub famous : Trilean

-- `&RoundEvent{}`
abbrev pub zero_event : RoundEvent
zero_event = record { consensus = false; witness = false; famous = undefined }

-- `RoundInfoMessage`
pub record RoundInfo : Type 0 where
  pub events : Map String RoundEvent
  pub queued : Bool

abbrev pub new_round_info : RoundInfo
new_round_info = record { events = []; queued = false }

unfoldable pub add_event : RoundInfo → String → Bool → RoundInfo
add_event r x witness = elim (lookup x r.events) [
  | none ↦ record r { events = insert x (record zero_event { witness = witness }) r.events }
  | some _ ↦ r
]

-- The entry that a setter starts from: a new one where the event is not there.
abbrev pub or_new : RoundEvent → Option RoundEvent → RoundEvent
or_new new none = new
or_new new (some e) = e

unfoldable pub set_consensus_event : RoundInfo → String → RoundInfo
set_consensus_event r x = record r {
  events = insert x (record (or_new zero_event (lookup x r.events)) { consensus = true }) r.events;
}

unfoldable pub set_fame : RoundInfo → String → Bool → RoundInfo
set_fame r x f = record r {
  events =
      insert x
        (record (or_new (record zero_event { witness = true }) (lookup x r.events)) {
          famous = if f then yea else nay;
        })
        r.events;
}

-- A `range` over the map that returns at the first entry for which the test fails.
unfoldable pub every : (RoundEvent → Bool) → Map String RoundEvent → Bool
every test [] = true
every test ((x, e) ∷ m) = let rest = every test m in if test e then rest else false

-- A `range` over the map that collects the keys whose entry passes the test.
unfoldable pub keys_where : (RoundEvent → Bool) → Map String RoundEvent → List String
keys_where test [] = []
keys_where test ((x, e) ∷ m) = let rest = keys_where test m in if test e then x ∷ rest else rest

abbrev pub is_open : RoundEvent → Bool
is_open e = e.witness && is_undefined e.famous

abbrev pub is_famous : RoundEvent → Bool
is_famous e = e.witness && is_yea e.famous

unfoldable pub witnesses_decided : RoundInfo → Bool
witnesses_decided r = every (λ e. not (is_open e)) r.events

unfoldable pub witnesses : RoundInfo → List String
witnesses r = keys_where (λ e. e.witness) r.events

unfoldable pub round_events : RoundInfo → List String
round_events r = keys_where (λ e. not e.consensus) r.events

unfoldable pub consensus_events : RoundInfo → List String
consensus_events r = keys_where (λ e. e.consensus) r.events

unfoldable pub famous_witnesses : RoundInfo → List String
famous_witnesses r = keys_where is_famous r.events

unfoldable pub is_decided : RoundInfo → String → Bool
is_decided r x = elim (lookup x r.events) [
  | none ↦ false
  | some e ↦ e.witness && not (is_undefined e.famous)
]

abbrev pub is_queued : RoundInfo → Bool
is_queued r = r.queued

abbrev same_bool : Bool → Bool → Bool
same_bool true b = b
same_bool false b = not b

unfoldable pub equal_events : RoundEvent → RoundEvent → Bool
equal_events a b =
    same_bool a.consensus b.consensus
    && same_bool a.witness b.witness
    && same_trilean a.famous b.famous

-- The loop of `EqualsMapStringRoundEvent`.
unfoldable pub entries_in : Map String RoundEvent → Map String RoundEvent → Bool
unfolding equal_events
entries_in [] that = true
entries_in ((k, v) ∷ m) that =
    let rest = entries_in m that in
    elim (lookup k that) [ none ↦ false | some w ↦ if equal_events w v then rest else false ]

unfoldable pub equals : RoundInfo → RoundInfo → Bool
equals a b =
    same_bool a.queued b.queued
    && eqb (length a.events) (length b.events)
    && entries_in a.events b.events
