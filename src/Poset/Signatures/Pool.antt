-- ===== src/Poset/Signatures/Pool.antt =====
-- The pool of block signatures, through `ProcessSigPool`.
use gource.Prelude.{
  ℕ, ◌+◌, ◌^◌, ◌≤◌, ◌<◌, ◌≡◌, refl, ap, ◌∙◌, Bool, true, false, List, [], ◌∷◌, ℤ, pos, add64, eqb_ℤ,
  length, arith, string_eq, add64-pos,
}
use gource.Common.Errors.{Result, ok, err}
use gource.Poset.Event.{BlockSignature}
use gource.Poset.State.{Env, Poset}
use gource.Poset.Signatures.{
  among, remove_processed, process_signature, process_loop, process_sig_pool,
}
use gource.Poset.Signatures.Anchors.{Loop, continue, process_loop-Anchors}

-- The processed positions lie below `n`.
abbrev pub AllBelow : ℕ → List ℤ → Type 0
AllBelow n [] = Unit
AllBelow n (p ∷ ps) = ((k : ℕ) × (p ≡ pos k) × (k < n)) × AllBelow n ps

-- Every signature in the pool is one of a block with an index from `n` on.
abbrev pub BlocksFrom : ℕ → List BlockSignature → Type 0
BlocksFrom n [] = Unit
BlocksFrom n (bs ∷ pool) = ((k : ℕ) × (bs.index ≡ pos k) × (n ≤ k)) × BlocksFrom n pool

AllBelow-weaken : (n m : ℕ) (ps : List ℤ) → n ≤ m → AllBelow n ps → AllBelow m ps
AllBelow-weaken n m [] h a = tt
AllBelow-weaken n m (p ∷ ps) h ((k, e, below), rest) =
    ((k, e, omega arith), AllBelow-weaken n m ps h rest)

among-AllBelow : (n k : ℕ) (ps : List ℤ) → n ≤ k → AllBelow n ps → among (pos k) ps ≡ false
unfolding among
among-AllBelow n k [] h a = refl
among-AllBelow n k (p ∷ ps) h ((j, e, below), rest) =
    let other : eqb_ℤ p (pos k) ≡ false = rw e (ground arith) in
    rw other (among-AllBelow n k ps h rest)

-- Positions below `n` remove no signature of a block from `n` on.
remove_processed-BlocksFrom :
    (n : ℕ) (ps : List ℤ) (pool : List BlockSignature)
    → AllBelow n ps
    → BlocksFrom n pool
    → remove_processed ps pool ≡ pool
unfolding remove_processed
remove_processed-BlocksFrom n ps [] a b = refl
remove_processed-BlocksFrom n ps (bs ∷ pool) a ((k, e, from), rest) =
    let absent : among bs.index ps ≡ false = rw e (among-AllBelow n k ps from a) in
    rw absent (ap (λ l. bs ∷ l) (remove_processed-BlocksFrom n ps pool a rest))

module _ {env : Env} where
  continue-AllBelow :
      (n : ℕ) (t : Poset env) (kept dropped : Loop env) (processed : List ℤ) (res : Result Bool)
      → AllBelow n processed
      → AllBelow n kept.1
      → AllBelow n dropped.1
      → AllBelow n (continue kept dropped processed t res).1
  continue-AllBelow n t kept dropped processed (err e) a k d = a
  continue-AllBelow n t kept dropped processed (ok true) a k d = d
  continue-AllBelow n t kept dropped processed (ok false) a k d = k

  process_loop-AllBelow :
      (pool : List BlockSignature) (i : ℤ) (k n : ℕ) (processed : List ℤ) (s : Poset env)
      → i ≡ pos k
      → k + length pool ≡ n
      → n < 2 ^ 63
      → AllBelow k processed
      → AllBelow n (process_loop i pool processed s).1
  unfolding process_loop
  process_loop-AllBelow [] i k n processed s at size small a =
      AllBelow-weaken k n processed (omega arith) a
  process_loop-AllBelow (bs ∷ pool) i k n processed s at size small a =
      let t = (process_signature {env = env} bs s).1 in
      let a' = AllBelow-weaken k (k + 1) processed (omega arith) a in
      let next = ap (λ j. add64 j (pos 1)) at ∙ add64-pos k 1 (omega arith) in
      continue-AllBelow n t _ _ processed (process_signature bs s).0
        (AllBelow-weaken k n processed (omega arith) a)
        (process_loop-AllBelow pool (add64 i (pos 1)) (k + 1) n processed t next (omega arith) small
          a')
        (process_loop-AllBelow pool (add64 i (pos 1)) (k + 1) n (i ∷ processed) t next (omega arith)
          small ((k, at, omega arith), a'))

  -- On a pool of fewer than 2^63 signatures, each of them of a block whose index is at least the size of
  -- the pool, `ProcessSigPool` removes no signature from the pool, whether they were processed or not, since
  -- it compares the indexes of blocks with positions in the pool.
  pub process_sig_pool-sig_pool :
      (s : Poset env)
      → length s.sig_pool < 2 ^ 63
      → BlocksFrom (length s.sig_pool) s.sig_pool
      → (process_sig_pool s).1.sig_pool ≡ s.sig_pool
  unfolding process_sig_pool
  process_sig_pool-sig_pool s small from =
      let below =
        process_loop-AllBelow s.sig_pool (pos 0) 0 (length s.sig_pool) [] s refl (omega arith) small
          tt in
      rw (process_loop-Anchors s.sig_pool (pos 0) [] s).pool
        (remove_processed-BlocksFrom (length s.sig_pool) _ s.sig_pool below from)
