-- ===== src/Poset/Signatures/Anchors.antt =====
-- The anchor block, through `ProcessSigPool`.
use gource.Prelude.{
  ◌≡◌, refl, ap, ◌∙◌, inl, inr, Bool, true, false, ◌&&◌, List, [], ◌∷◌, Option, none, some, ℤ, pos,
  add64, length, arith, Bool-cases, if◌then◌else◌, UpTo, UpTo-refl, UpTo-trans, ltb, string_eq,
}
use gource.Common.Errors.{Error, Result, ok, err}
use gource.Common.Exec.{Exec, pure, gets, lift, modify, attempt, ◌>>=◌}
use gource.Common.Exec.Steps.{IsOrder, Steps, Steps-bind, Steps-attempt}
use gource.Poset.Event.{BlockSignature}
use gource.Poset.Block.{Block, set_signature}
use gource.Poset.State.{Env, Poset, on_store, set_anchor_block}
use gource.Poset.Signatures.{
  above, accept_signature, check_signature, process_signature, process_loop, process_sig_pool,
}
use gource.Poset.Queries.Caches.{Asks, on_store-Asks}

raised : (o : Option ℤ) (i : ℤ) → above o i ≡ true → UpTo o (some i)
unfolding above
raised none i h = tt
raised (some a) i h = ground arith

module _ {env : Env} where
  -- The pool, the threshold, the blocks and the last consensus round stay, and the anchor block moves up.
  pub record Anchors (s t : Poset env) : Type 0 where
    pub pool : t.sig_pool ≡ s.sig_pool
    pub threshold : t.trust_count ≡ s.trust_count
    pub blocks : t.committed ≡ s.committed
    pub last : t.last_consensus_round ≡ s.last_consensus_round
    pub anchor : UpTo s.anchor_block t.anchor_block

  Anchors-IsOrder : IsOrder Anchors
  Anchors-IsOrder = record {
    stays = λ s. record {
      pool = refl;
      threshold = refl;
      blocks = refl;
      last = refl;
      anchor = UpTo-refl s.anchor_block;
    };
    chain = λ s t u h k. record {
      pool = k.pool ∙ h.pool;
      threshold = k.threshold ∙ h.threshold;
      blocks = k.blocks ∙ h.blocks;
      last = k.last ∙ h.last;
      anchor = UpTo-trans s.anchor_block t.anchor_block u.anchor_block h.anchor k.anchor;
    };
  }

  Asks-Anchors : {A : Type 0} (m : Exec (Poset env) A) → Asks m → Steps Anchors m
  Asks-Anchors m a = record {
    at = λ s. record {
      pool = ap (λ t. t.sig_pool) (a.at s);
      threshold = ap (λ t. t.trust_count) (a.at s);
      blocks = ap (λ t. t.committed) (a.at s);
      last = ap (λ t. t.last_consensus_round) (a.at s);
      anchor = rw (ap (λ t. t.anchor_block) (a.at s)) (UpTo-refl s.anchor_block);
    };
  }

  bind-Anchors :
      {A B : Type 0} (m : Exec (Poset env) A) (f : A → Exec (Poset env) B)
      → Steps Anchors m
      → ((a : A) → Steps Anchors (f a))
      → Steps Anchors (m >>= f)
  bind-Anchors m f = Steps-bind Anchors-IsOrder m f

  attempt-Anchors :
      {A B : Type 0} (m : Exec (Poset env) A) (f : Result A → Exec (Poset env) B)
      → Steps Anchors m
      → ((a : A) → Steps Anchors (f (ok a)))
      → ((e : Error) → Steps Anchors (f (err e)))
      → Steps Anchors (attempt m f)
  attempt-Anchors m f k h g =
      Steps-attempt Anchors-IsOrder m f k
        (λ r. elim r as (λ r. Steps Anchors (f r)) [ ok a ↦ h a | err e ↦ g e ])

  if-Anchors :
      {A : Type 0} (b : Bool) (m n : Exec (Poset env) A)
      → Steps Anchors m
      → Steps Anchors n
      → Steps Anchors (if b then m else n)
  if-Anchors true m n k l = k
  if-Anchors false m n k l = l

  option-Anchors :
      {A B : Type 0} (o : Option A) (m : Exec (Poset env) B) (f : A → Exec (Poset env) B)
      → Steps Anchors m
      → ((a : A) → Steps Anchors (f a))
      → Steps Anchors (elim o [ none ↦ m | some a ↦ f a ])
  option-Anchors none m f k h = k
  option-Anchors (some a) m f k h = h a

  pure-Anchors : {A : Type 0} (a : A) → Steps Anchors (pure a)
  unfolding pure
  pure-Anchors a = record { at = λ s. Anchors-IsOrder.stays s }

  gets-Anchors : {A : Type 0} (f : Poset env → A) → Steps Anchors (gets f)
  unfolding gets
  gets-Anchors f = record { at = λ s. Anchors-IsOrder.stays s }

  lift-Anchors : {A : Type 0} (r : Result A) → Steps Anchors (lift r)
  unfolding lift
  lift-Anchors r = record { at = λ s. Anchors-IsOrder.stays s }

  store-Anchors : {A : Type 0} (m : Exec env.store.State A) → Steps Anchors (on_store m)
  store-Anchors m = Asks-Anchors _ (on_store-Asks m)

  -- The end of `accept_signature`, at a state with the anchor block `o`.
  settle :
      (i : ℤ) (enough : Bool) (t : Poset env)
      → Anchors t
          ((if enough && above t.anchor_block i then modify (set_anchor_block i) else pure tt) t).1
  unfolding modify pure set_anchor_block
  settle i false t = Anchors-IsOrder.stays t
  settle i true t = elim (Bool-cases (above t.anchor_block i)) [
    | inl up ↦ rw up (record {
      pool = refl;
      threshold = refl;
      blocks = refl;
      last = refl;
      anchor = raised t.anchor_block i up;
    })
    | inr down ↦ rw down (Anchors-IsOrder.stays t)
  ]

  accept_signature-Anchors :
      (block : Block) (bs : BlockSignature) → Steps Anchors (accept_signature {env = env} block bs)
  unfolding accept_signature attempt gets pure ◌>>=◌
  accept_signature-Anchors block bs = record {
    at = λ s.
        let t = (on_store {env = env} (env.store.set_block (set_signature block bs)) s).1 in
        Anchors-IsOrder.chain s t _
          ((store-Anchors (env.store.set_block (set_signature block bs))).at s)
          (settle block.index (ltb t.trust_count (length (set_signature block bs).signatures)) t);
  }

ruleset anchors = (
  bind-Anchors, attempt-Anchors, if-Anchors, pure-Anchors, gets-Anchors, lift-Anchors,
  store-Anchors,
)

module _ {env : Env} where
  check_signature-Anchors : (bs : BlockSignature) → Steps Anchors (check_signature {env = env} bs)
  unfolding check_signature
  check_signature-Anchors bs = search (anchors, accept_signature-Anchors) depth 8

  process_signature-Anchors :
      (bs : BlockSignature) → Steps Anchors (process_signature {env = env} bs)
  unfolding process_signature
  process_signature-Anchors bs = bind-Anchors _ _ (gets-Anchors _) (λ v.
      bind-Anchors _ _ (gets-Anchors _) (λ a.
        option-Anchors v _ _ (pure-Anchors false)
          (λ _. if-Anchors _ _ _ (check_signature-Anchors bs) (pure-Anchors true))))

-- What a loop leaves: the positions it has collected, and the state after it.
abbrev pub Loop : Env → Type 0
Loop env = Result (Unit {0}) × List ℤ × Poset env

module _ {env : Env} where
  -- The loop after one signature.
  abbrev pub continue : (kept dropped : Loop env) → List ℤ → Poset env → Result Bool → Loop env
  continue kept dropped processed t res = elim res [
    | err e ↦ (err e, processed, t)
    | ok true ↦ dropped
    | ok false ↦ kept
  ]

  continue-Anchors :
      (s t : Poset env) (kept dropped : Loop env) (processed : List ℤ) (res : Result Bool)
      → Anchors s t
      → Anchors t kept.2
      → Anchors t dropped.2
      → Anchors s (continue kept dropped processed t res).2
  continue-Anchors s t kept dropped processed (err e) h k d = h
  continue-Anchors s t kept dropped processed (ok true) h k d = Anchors-IsOrder.chain s t _ h d
  continue-Anchors s t kept dropped processed (ok false) h k d = Anchors-IsOrder.chain s t _ h k

  pub process_loop-Anchors :
      (pool : List BlockSignature) (i : ℤ) (processed : List ℤ) (s : Poset env)
      → Anchors s (process_loop i pool processed s).2
  unfolding process_loop
  process_loop-Anchors [] i processed s = Anchors-IsOrder.stays s
  process_loop-Anchors (bs ∷ pool) i processed s =
      let t = (process_signature {env = env} bs s).1 in
      continue-Anchors s t _ _ processed (process_signature bs s).0
        ((process_signature-Anchors bs).at s)
        (process_loop-Anchors pool (add64 i (pos 1)) processed t)
        (process_loop-Anchors pool (add64 i (pos 1)) (i ∷ processed) t)

  -- `ProcessSigPool` never moves the anchor block back, whether it ends in an error or not.
  pub process_sig_pool-anchor :
      (s : Poset env) → UpTo s.anchor_block (process_sig_pool s).1.anchor_block
  unfolding process_sig_pool
  process_sig_pool-anchor s = (process_loop-Anchors s.sig_pool (pos 0) [] s).anchor
