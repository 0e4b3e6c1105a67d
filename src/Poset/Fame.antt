-- ===== src/Poset/Fame.antt =====
-- src/poset/poset.go: `DecideFame`, the virtual voting on the fame of witnesses.
pub mod Flags
pub mod Ballots
pub mod Agreement
use gource.Prelude.{
  ℕ, zero, suc, ◌+◌, ◌-◌, ◌/◌, ◌%◌, String, Bool, true, false, ◌&&◌, not, List, [], ◌∷◌, ◌++◌, map,
  Option, none, some, ℤ, pos, negsuc, add64, sub64, Map, lookup, insert, string_eq, int_eq, ◌==◌,
  if◌then◌else◌, Comparable, leb, ltb, eqb, get_elem?, length,
}
use gource.Common.Errors.{Error, Result, ok, err}
use gource.Common.Exec.{Exec, pure, raise, lift, gets, modify, attempt, for_each, ◌>>=◌, ◌>>◌}
use gource.Peers.Peer.{decode_hex, skip_prefix}
use gource.Poset.Block.{bytes_or_nil}
use gource.Poset.RoundInfo.{RoundInfo, witnesses, witnesses_decided, is_decided, set_fame}
use gource.Poset.State.{Env, Poset, PendingRound, Key, key_eq, on_store}
use gource.Poset.Ancestry.{see, strongly_see}
use gource.Poset.Fame.Ballots.{Votes, vote_of, set_vote, tally, majority, support}

-- `middleBit`: false exactly if the middle byte of the hash is 0. The hash of an empty or bad text
-- has no bytes.
unfoldable pub middle_bit : String → Bool
middle_bit ehex =
    let hash = bytes_or_nil (decode_hex (skip_prefix ehex)) in
    elim (get_elem? hash (length hash / 2)) [ none ↦ true | some b ↦ not (eqb b 0) ]

-- What `y`, `diff` rounds later, makes of the votes on `x` of the witnesses that it strongly sees: its
-- own vote, and the fame of `x` if that is decided now.
unfoldable pub cast_vote : ℕ → ℕ → Votes → String → String → List String → Votes × Option Bool
cast_vote super_majority diff votes y x ss_witnesses =
    let v = majority (tally votes x ss_witnesses) in
    let t = support (tally votes x ss_witnesses) in
    if eqb (diff % 3) 0
    then (if leb super_majority t
        then (set_vote y x v votes, none)
        else (set_vote y x (middle_bit y) votes, none))
    else (if leb super_majority t
        then (set_vote y x v votes, some v)
        else (set_vote y x v votes, none))

rounds_left : ℤ → ℤ → ℕ
rounds_left last round_index = elim (sub64 last round_index) [ pos n ↦ n | negsuc _ ↦ 0 ]

module _ {env : Env} (fuel : ℕ) where
  unfoldable pub strongly_seen : String → List String → Exec (Poset env) (List String)
  strongly_seen y [] = pure []
  strongly_seen y (w ∷ ws) = do
    ss ← strongly_see fuel y w
    rest ← strongly_seen y ws
    pure (if ss then w ∷ rest else rest)

  -- One `y` of round `j`, which is `diff` rounds after the round of `x`.
  unfoldable pub vote : ℕ → ℤ → String → String → Votes → Exec (Poset env) (Votes × Option Bool)
  vote diff j x y votes =
      if eqb diff 1 then (do ycx ← see fuel y x; pure (set_vote y x ycx votes, none)) else (do
        ws ← on_store (env.store.round_witnesses (sub64 j (pos 1)))
        ss_witnesses ← strongly_seen y ws
        super_majority ← gets (λ s. s.super_majority)
        pure (cast_vote super_majority diff votes y x ss_witnesses))

  -- The witnesses of round `j`, up to the one that decides.
  unfoldable pub vote_round :
      ℕ → ℤ → String → List String → Votes → Exec (Poset env) (Votes × Option Bool)
  vote_round diff j x [] votes = pure (votes, none)
  vote_round diff j x (y ∷ ys) votes = do
    (votes', fame) ← vote diff j x y votes
    let rest = vote_round diff j x ys votes'
    elim fame [ none ↦ rest | some v ↦ pure (votes', some v) ]

  -- VOTE_LOOP over the rounds that are left up to the last one. Nothing in it changes the last round.
  unfoldable pub vote_loop : ℕ → ℕ → ℤ → String → Votes → Exec (Poset env) (Votes × Option Bool)
  vote_loop zero diff round_index x votes = pure (votes, none)
  vote_loop (suc left) diff round_index x votes = do
    ys ← on_store (env.store.round_witnesses (add64 round_index (pos diff)))
    (votes', fame) ← vote_round diff (add64 round_index (pos diff)) x ys votes
    let rest = vote_loop left (suc diff) round_index x votes'
    elim fame [ none ↦ rest | some v ↦ pure (votes', some v) ]

  -- The witnesses of one pending round. A decided one is passed over.
  unfoldable pub decide_witnesses :
      ℤ → List String → Votes → RoundInfo → Exec (Poset env) (Votes × RoundInfo)
  unfolding rounds_left
  decide_witnesses round_index [] votes info = pure (votes, info)
  decide_witnesses round_index (x ∷ xs) votes info =
      let skip = decide_witnesses round_index xs votes info in
      if is_decided info x then skip else (do
        last ← on_store env.store.last_round
        (votes', fame) ← vote_loop (rounds_left last round_index) 1 round_index x votes
        decide_witnesses round_index xs votes'
            (elim fame [ none ↦ info | some v ↦ set_fame info x v ]))

  -- The pending rounds; the list collects those whose witnesses are all decided.
  unfoldable pub decide_rounds : List PendingRound → Votes → List ℤ → Exec (Poset env) (List ℤ)
  decide_rounds [] votes decided = pure decided
  decide_rounds (r ∷ rs) votes decided = do
    info ← on_store (env.store.get_round r.index)
    (votes', info') ← decide_witnesses r.index (witnesses info) votes info
    on_store (env.store.set_round r.index info')
    decide_rounds rs votes' (if witnesses_decided info' then r.index ∷ decided else decided)

unfoldable pub among : ℤ → List ℤ → Bool
among i [] = false
among i (j ∷ js) = if j == i then true else among i js

unfoldable pub update_pending_rounds : List ℤ → List PendingRound → List PendingRound
unfolding among
update_pending_rounds decided [] = []
update_pending_rounds decided (ur ∷ urs) =
    (if among ur.index decided then record ur { decided = true } else ur)
    ∷ update_pending_rounds decided urs

module _ {env : Env} where
  unfoldable pub decide_fame : ℕ → Exec (Poset env) Unit
  decide_fame fuel = do
    pending ← gets (λ s. s.pending_rounds)
    decided ← decide_rounds fuel pending [] []
    modify (λ s. record s { pending_rounds = update_pending_rounds decided s.pending_rounds })
