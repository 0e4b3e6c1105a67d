-- ===== src/Poset/Process/Progress.antt =====
-- What `ProcessDecidedRounds` does to the blocks and to the last consensus round.
use gource.Prelude.{
  ℕ, ◌≡◌, refl, sym, ap, ◌∙◌, Bool, true, List, [], ◌∷◌, ◌++◌, Option, none, some, ℤ, ltb_ℤ, ◌≤ℤ◌,
  arith, Bool-cases, inl, inr, if◌then◌else◌, UpTo, UpTo-refl, UpTo-trans,
}
use mathlib.Core.List.{append-nil, append_assoc}
use gource.Common.Errors.{Result}
use gource.Common.Exec.{Exec, pure, lift, modify, for_each, ◌>>=◌}
use gource.Common.Exec.Steps.{
  IsOrder, Steps, Steps-bind, Steps-pure, Steps-if, Steps-modify, Steps-for_each, Steps-lift,
}
use gource.Poset.Event.{Event}
use gource.Poset.Block.{Block, Frame}
use gource.Poset.State.{Env, Poset, on_store, set_last_consensus_round}
use gource.Poset.Process.{
  count_event, commit_event, commit_block, commit_frame, advance, process_round,
}
use gource.Poset.Frames.{get_frame}
use gource.Poset.Queries.Caches.{Asks, on_store-Asks}
use gource.Poset.Queries.Frames.{get_frame-Asks}

-- The list on the right has the one on the left as its beginning.
abbrev pub Extends {ℓ} : {A : Type ℓ} → List A → List A → Type ℓ
Extends {A = A} l m = (new : List A) × (m ≡ l ++ new)

up_of_test : (i j : ℤ) → ltb_ℤ i j ≡ true → i ≤ℤ j
up_of_test i j h = ground arith

module _ {env : Env} where
  -- The rounds in the queue and the anchor block stay, the last consensus round moves up, and blocks are only sent.
  pub record Progress (s t : Poset env) : Type 0 where
    pub queue : t.pending_rounds ≡ s.pending_rounds
    pub anchor : t.anchor_block ≡ s.anchor_block
    pub last : UpTo s.last_consensus_round t.last_consensus_round
    pub blocks : Extends s.committed t.committed

  pub Progress-IsOrder : IsOrder Progress
  Progress-IsOrder = record {
    stays = λ s. record {
      queue = refl;
      anchor = refl;
      last = UpTo-refl s.last_consensus_round;
      blocks = ([], sym (append-nil s.committed));
    };
    chain = λ s t u h k. record {
      queue = k.queue ∙ h.queue;
      anchor = k.anchor ∙ h.anchor;
      last =
          UpTo-trans s.last_consensus_round t.last_consensus_round u.last_consensus_round h.last
            k.last;
      blocks = (
        h.blocks.0 ++ k.blocks.0,
        k.blocks.1
            ∙ ap (λ l. l ++ k.blocks.0) h.blocks.1
            ∙ append_assoc s.committed h.blocks.0 k.blocks.0,
      );
    };
  }

  Asks-Progress : {A : Type 0} (m : Exec (Poset env) A) → Asks m → Steps Progress m
  Asks-Progress m a = record {
    at = λ s. record {
      queue = ap (λ t. t.pending_rounds) (a.at s);
      anchor = ap (λ t. t.anchor_block) (a.at s);
      last = rw (ap (λ t. t.last_consensus_round) (a.at s)) (UpTo-refl s.last_consensus_round);
      blocks = ([], ap (λ t. t.committed) (a.at s) ∙ sym (append-nil s.committed));
    };
  }

  count_event-Progress : (ev : Event) → Steps Progress (modify (count_event ev))
  unfolding count_event
  count_event-Progress ev = Steps-modify Progress-IsOrder _ (λ s. record {
    queue = refl;
    anchor = refl;
    last = UpTo-refl s.last_consensus_round;
    blocks = ([], sym (append-nil s.committed));
  })

  bind-Progress :
      {A B : Type 0} (m : Exec (Poset env) A) (f : A → Exec (Poset env) B)
      → Steps Progress m
      → ((a : A) → Steps Progress (f a))
      → Steps Progress (m >>= f)
  bind-Progress m f = Steps-bind Progress-IsOrder m f

  if-Progress :
      {A : Type 0} (b : Bool) (m n : Exec (Poset env) A)
      → Steps Progress m
      → Steps Progress n
      → Steps Progress (if b then m else n)
  if-Progress b m n k l = Steps-if Progress-IsOrder b m n (λ _. k) (λ _. l)

  pure-Progress : {A : Type 0} (a : A) → Steps Progress (pure a)
  pure-Progress a = Steps-pure Progress-IsOrder a

  lift-Progress : {A : Type 0} (r : Result A) → Steps Progress (lift r)
  lift-Progress r = Steps-lift Progress-IsOrder r

  store-Progress : {A : Type 0} (m : Exec env.store.State A) → Steps Progress (on_store m)
  store-Progress m = Asks-Progress _ (on_store-Asks m)

  send-Progress :
      (block : Block)
      → Steps Progress (modify (λ s. record s { committed = s.committed ++ block ∷ [] }))
  send-Progress block = Steps-modify Progress-IsOrder _ (λ s. record {
    queue = refl;
    anchor = refl;
    last = UpTo-refl s.last_consensus_round;
    blocks = (block ∷ [], refl);
  })

ruleset progress = (bind-Progress, if-Progress, pure-Progress, lift-Progress, store-Progress)

module _ {env : Env} where
  commit_event-Progress : (ev : Event) → Steps Progress (commit_event {env = env} ev)
  unfolding commit_event
  commit_event-Progress ev = bind-Progress _ _ (store-Progress _) (λ _. count_event-Progress ev)

  commit_events-Progress :
      (evs : List Event) → Steps Progress (for_each evs (commit_event {env = env}))
  commit_events-Progress evs = Steps-for_each Progress-IsOrder evs _ commit_event-Progress

  commit_block-Progress : (block : Block) → Steps Progress (commit_block {env = env} block)
  unfolding commit_block
  commit_block-Progress block = search (progress, send-Progress)

  commit_frame-Progress : (frame : Frame) → Steps Progress (commit_frame {env = env} frame)
  unfolding commit_frame
  commit_frame-Progress frame =
      search (progress, commit_events-Progress, commit_block-Progress) depth 8

  advanced :
      (i : ℤ) (s : Poset env) (o : Option ℤ) → s.last_consensus_round ≡ o → Progress s (advance i s)
  unfolding advance set_last_consensus_round
  advanced i s none e =
      rw (e, advance)
        (record {
          queue = refl;
          anchor = refl;
          last = tt;
          blocks = ([], sym (append-nil s.committed));
        })
  advanced i s (some last) e = elim (Bool-cases (ltb_ℤ last i)) [
    | inl up ↦
        rw (e, up, advance)
          (record {
            queue = refl;
            anchor = refl;
            last = up_of_test last i up;
            blocks = ([], sym (append-nil s.committed));
          })
    | inr down ↦
        rw (e, down, advance)
          (record {
            queue = refl;
            anchor = refl;
            last = rw e (UpTo-refl (some last));
            blocks = ([], sym (append-nil s.committed));
          })
  ]

  advance-Progress : (i : ℤ) → Steps Progress (modify (advance {env = env} i))
  advance-Progress i =
      Steps-modify Progress-IsOrder _ (λ s. advanced i s s.last_consensus_round refl)

  frame-Progress : (fuel : ℕ) (i : ℤ) → Steps Progress (get_frame {env = env} fuel i)
  frame-Progress fuel i = Asks-Progress _ (get_frame-Asks fuel i)

  pub process_round-Progress :
      (fuel : ℕ) (i : ℤ) → Steps Progress (process_round {env = env} fuel i)
  unfolding process_round
  process_round-Progress fuel i = bind-Progress _ _ (frame-Progress fuel i) (λ frame.
      bind-Progress _ _ (store-Progress _)
        (λ _. bind-Progress _ _ (commit_frame-Progress frame) (λ _. advance-Progress i)))
