-- ===== src/Poset/RoundInfo/Fame.antt =====
-- Witnesses and their fame: the lists that the loops over the map collect, by what the map holds.
use gource.Prelude.{
  ◌≡◌, ◌↔◌, refl, ap, String, Bool, true, false, not, List, [], ◌∷◌, Option, none, some,
  if◌then◌else◌, Map, lookup, insert, IsDistinct, insert-IsDistinct, string_eq, ◌==◌, lookup-insert,
  lookup-insert_self, arith, Option-cases, inl, inr, ==_refl, ==-ne,
}
use text.Mathlib.TextEquality.{eq_iff}
use gource.Poset.RoundInfo.{
  RoundInfo, RoundEvent, or_new, zero_event, yea, nay, is_open, is_famous, every, keys_where,
  witnesses, witnesses_decided, famous_witnesses, consensus_events, round_events, is_decided,
  add_event, set_fame, set_consensus_event,
}

unfoldable pub contains : String → List String → Bool
contains x [] = false
contains x (y ∷ ys) = if y == x then true else contains x ys

-- The test on the entry of a key; a key that is not there fails it.
abbrev pub holds : (RoundEvent → Bool) → Option RoundEvent → Bool
holds test none = false
holds test (some e) = test e

contains_absent :
    (test : RoundEvent → Bool) (m : Map String RoundEvent) (x : String)
    → lookup x m ≡ none
    → contains x (keys_where test m) ≡ false
unfolding contains keys_where lookup
contains_absent test [] x h = refl
contains_absent test ((y, e) ∷ m) x h = ground (arith, contains_absent test m x)

-- Such a list has the keys whose entry passes the test.
pub contains-keys_where :
    (test : RoundEvent → Bool) (m : Map String RoundEvent) (x : String)
    → IsDistinct m
    → contains x (keys_where test m) ≡ holds test (lookup x m)
unfolding contains keys_where lookup
contains-keys_where test [] x d = refl
contains-keys_where test ((y, e) ∷ m) x d =
    ground (arith, contains-keys_where test m x d.1, contains_absent test m x, eq_iff y x)

every-lookup :
    (test : RoundEvent → Bool) (m : Map String RoundEvent) (x : String) (e : RoundEvent)
    → every test m ≡ true
    → lookup x m ≡ some e
    → test e ≡ true
unfolding every lookup
every-lookup test [] x e h p = cc
every-lookup test ((y, f) ∷ m) x e h p = ground (arith, every-lookup test m x e)

every-intro :
    (test : RoundEvent → Bool) (m : Map String RoundEvent)
    → IsDistinct m
    → ((x : String) (e : RoundEvent) → lookup x m ≡ some e → test e ≡ true)
    → every test m ≡ true
unfolding every
every-intro test [] d h = refl
every-intro test ((y, f) ∷ m) d h =
    let first : test f ≡ true = h y f (unfold lookup in rw (==_refl y)) in
    rw first (
      every-intro test m d.1 (λ x e p.
        h x e (unfold lookup in rw (==-ne y x (λ q. cc (p, d.0, ap (λ z. lookup z m) q))) p)))

-- Let no event stand twice in the map. `WitnessesDecided` is true exactly when `IsDecided` is for each of
-- the `Witnesses`.
pub witnesses_decided_iff :
    (r : RoundInfo)
    → IsDistinct r.events
    → (witnesses_decided r ≡ true)
      ↔ ((x : String) → contains x (witnesses r) ≡ true → is_decided r x ≡ true)
unfolding witnesses_decided witnesses is_decided
witnesses_decided_iff r d = (forth, back)
  where
    forth :
        every (λ e. not (is_open e)) r.events ≡ true
        → (x : String) → contains x (keys_where (λ e. e.witness) r.events) ≡ true
        → is_decided r x ≡ true
    forth h x p = elim (Option-cases (lookup x r.events)) [
      | inl q ↦ ground (arith, contains-keys_where (λ e. e.witness) r.events x d)
      | inr (e, q) ↦ ground (
        arith,
        contains-keys_where (λ e. e.witness) r.events x d,
        every-lookup (λ e. not (is_open e)) r.events x e h q,
      )
    ]

    back :
        ((x : String)
          → contains x (keys_where (λ e. e.witness) r.events) ≡ true
          → is_decided r x ≡ true)
        → every (λ e. not (is_open e)) r.events ≡ true
    back h =
        every-intro _ r.events d
          λ x e p. ground (arith, contains-keys_where (λ e. e.witness) r.events x d, h x)

-- The entry of `x` with its fame set: of a new witness, where the round does not know it.
abbrev pub voted : RoundInfo → String → Bool → RoundEvent
voted r x f = record (or_new (record zero_event { witness = true }) (lookup x r.events)) {
  famous = if f then yea else nay;
}

-- The entry of `x` as a consensus event.
abbrev pub received : RoundInfo → String → RoundEvent
received r x = record (or_new zero_event (lookup x r.events)) { consensus = true }

-- Let no event stand twice in the map. `SetFame` records the vote on its event, and changes the entry of no other event. Where the event
-- is a witness it is decided afterwards, and famous exactly if that was the vote. An event that the
-- round does not know becomes a witness.
pub set_fame_lem :
    (r : RoundInfo) (x : String) (f : Bool)
    → IsDistinct r.events
    → (is_decided (set_fame r x f) x ≡ contains x (witnesses (set_fame r x f)))
      × (contains x (famous_witnesses (set_fame r x f))
          ≡ (if f then contains x (witnesses (set_fame r x f)) else false))
      × ((y : String)
          → lookup y (set_fame r x f).events
            ≡ (if x == y then some (voted r x f) else lookup y r.events))
unfolding set_fame is_decided famous_witnesses witnesses
set_fame_lem r x f d =
    let e = voted r x f in
    let entry = lookup-insert_self x e r.events in
    let d' = insert-IsDistinct x e r.events d in
    let of_witness = contains-keys_where (λ e. e.witness) (insert x e r.events) x d' in
    let of_famous = contains-keys_where is_famous (insert x e r.events) x d' in
    (
      ground (arith, entry, of_witness),
      ground (arith, entry, of_witness, of_famous),
      λ y. lookup-insert x y e r.events,
    )

-- Let no event stand twice in the map. `SetConsensusEvent` puts its event among the consensus events and takes it from the others, keeps
-- its fame, and changes the entry of no other event.
pub set_consensus_event_lem :
    (r : RoundInfo) (x : String)
    → IsDistinct r.events
    → (contains x (consensus_events (set_consensus_event r x)) ≡ true)
      × (contains x (round_events (set_consensus_event r x)) ≡ false)
      × (is_decided (set_consensus_event r x) x ≡ is_decided r x)
      × ((y : String)
          → lookup y (set_consensus_event r x).events
            ≡ (if x == y then some (received r x) else lookup y r.events))
unfolding set_consensus_event is_decided consensus_events round_events
set_consensus_event_lem r x d =
    let e = received r x in
    let entry = lookup-insert_self x e r.events in
    let d' = insert-IsDistinct x e r.events d in
    let of_consensus = contains-keys_where (λ e. e.consensus) (insert x e r.events) x d' in
    let of_round = contains-keys_where (λ e. not e.consensus) (insert x e r.events) x d' in
    (
      ground (arith, entry, of_consensus),
      ground (arith, entry, of_round),
      ground (arith, entry),
      λ y. lookup-insert x y e r.events,
    )

-- `AddEvent` records a new event as a witness or not, with its fame open, and leaves an event that the
-- round already knows as it is; it changes the entry of no other event.
pub add_event_lem :
    (r : RoundInfo) (x : String) (w : Bool) (y : String)
    → lookup y (add_event r x w).events ≡ (
        if x == y
        then some (or_new (record zero_event { witness = w }) (lookup x r.events))
        else lookup y r.events)
unfolding add_event
add_event_lem r x w y =
    let e = record zero_event { witness = w } in
    ground (arith, lookup-insert x y e r.events, eq_iff x y)
