-- ===== src/Poset/Signatures.antt =====
-- src/poset/poset.go: block signatures. `ProcessSigPool`, `removeProcessedSignatures`, `CheckBlock`.
pub mod Anchors
pub mod Pool
use gource.Prelude.{
  ℕ, suc, Bool, true, false, ◌&&◌, List, [], ◌∷◌, Option, none, some, ℤ, pos, add64, ltb_ℤ, eqb_ℤ,
  lookup, string_eq, int_eq, if◌then◌else◌, leb, ltb, length,
}
use gource.Common.Errors.{Result, ok, err, message}
use gource.Common.Exec.{Exec, pure, raise, lift, gets, modify, attempt, ◌>>=◌, ◌>>◌}
use gource.Poset.Event.{BlockSignature}
use gource.Poset.Block.{Block, BlockCodec, validator_hex, set_signature, get_block_signatures}
use gource.Poset.State.{Env, Poset, on_store, set_anchor_block}

-- `i > *a`, or there is no `a`.
unfoldable pub above : Option ℤ → ℤ → Bool
above none i = true
above (some a) i = ltb_ℤ a i

unfoldable pub among : ℤ → List ℤ → Bool
among i [] = false
among i (j ∷ js) = if eqb_ℤ j i then true else among i js

-- A signature stays unless the INDEX OF ITS BLOCK is among the processed ones.
unfoldable pub remove_processed : List ℤ → List BlockSignature → List BlockSignature
remove_processed processed [] = []
remove_processed processed (bs ∷ pool) =
    let rest = remove_processed processed pool in
    if among bs.index processed then rest else bs ∷ rest

count_valid : BlockCodec → Block → List BlockSignature → ℕ
count_valid codec block [] = 0
count_valid codec block (s ∷ ss) =
    let rest = count_valid codec block ss in
    elim (codec.verify_body block s) [ err _ ↦ rest | ok valid ↦ if valid then suc rest else rest ]

module _ {env : Env} where
  -- A valid signature of a block goes into the block, which may become the anchor block. Whether the
  -- block could be saved again makes no difference.
  unfoldable pub accept_signature : Block → BlockSignature → Exec (Poset env) Unit
  accept_signature block bs = do
    attempt (on_store (env.store.set_block (set_signature block bs))) (λ _. pure tt)
    trust_count ← gets (λ s. s.trust_count)
    anchor_block ← gets (λ s. s.anchor_block)
    if ltb trust_count (length (set_signature block bs).signatures)
          && above anchor_block block.index
        then modify (set_anchor_block block.index)
        else pure tt

  -- A signature above the anchor block. True if it is processed: its block is there, and it is valid.
  unfoldable pub check_signature : BlockSignature → Exec (Poset env) Bool
  check_signature bs = attempt (on_store (env.store.get_block bs.index)) λ res. elim res [
    | err _ ↦ pure false
    | ok block ↦ do
      valid ← lift (env.codec.blocks.verify_body block bs)
      if valid then (do accept_signature block bs; pure true) else pure false
  ]

  unfoldable pub process_signature : BlockSignature → Exec (Poset env) Bool
  process_signature bs = do
    validator ← gets (λ s. lookup (validator_hex bs) s.participants.by_pub_key)
    anchor_block ← gets (λ s. s.anchor_block)
    elim validator [
      | none ↦ pure false
      | some _ ↦ if above anchor_block bs.index then check_signature bs else pure true
    ]

  -- The loop, with the POSITIONS IN THE POOL of the processed signatures. They are kept when an error
  -- ends the loop.
  unfoldable pub process_loop :
      ℤ → List BlockSignature → List ℤ → Poset env → Result (Unit {0}) × List ℤ × Poset env
  process_loop i [] processed s = (ok tt, processed, s)
  process_loop i (bs ∷ pool) processed s =
      let (res, s') = process_signature bs s in
      elim res [
        | err e ↦ (err e, processed, s')
        | ok true ↦ process_loop (add64 i (pos 1)) pool (i ∷ processed) s'
        | ok false ↦ process_loop (add64 i (pos 1)) pool processed s'
      ]

  -- The deferred call removes with what the loop has collected, on every way out.
  unfoldable pub process_sig_pool : Exec (Poset env) Unit
  process_sig_pool s =
      let (res, processed, s') = process_loop (pos 0) s.sig_pool [] s in
      (res, record s' { sig_pool = remove_processed processed s'.sig_pool })

  -- An error unless more than a third of the participants have signed the block.
  unfoldable pub check_block : Block → Exec (Poset env) Unit
  unfolding count_valid
  check_block block = do
    trust_count ← gets (λ s. s.trust_count)
    if leb (count_valid env.codec.blocks block (get_block_signatures block)) trust_count
        then raise (message "not enough valid signatures")
        else pure tt
