-- ===== src/Poset/Advance.antt =====
-- How the methods of a poset that has not been reset move it: composed from what each of them changes.
use mathlib.Core.List.{append-nil, append_assoc}
use gource.Prelude.{
  ℕ, ◌≡◌, refl, sym, ap, ◌∙◌, Bool, List, [], ◌++◌, Option, ℤ, pos, UpTo, UpTo-refl, UpTo-trans,
}
use gource.Common.Exec.{Exec, pure, gets, modify, ◌>>=◌}
use gource.Common.Exec.Steps.{IsOrder, Steps, Steps-bind, Steps-modify}
use gource.Poset.Event.{Event}
use gource.Poset.State.{Env, Poset}
use gource.Poset.Insert.{insert_event, admit_event, number_event, enqueue}
use gource.Poset.Insert.Queues.{check_event-Asks, store_event-Asks}
use gource.Poset.Divide.{divide_rounds}
use gource.Poset.Divide.Queue.{divide_rounds-Queues}
use gource.Poset.Fame.{decide_fame}
use gource.Poset.Fame.Flags.{decide_fame_lem}
use gource.Poset.Received.{decide_round_received}
use gource.Poset.Received.Rest.{decide_round_received_lem}
use gource.Poset.Process.{process_decided_rounds}
use gource.Poset.Process.Progress.{Extends}
use gource.Poset.Process.Removal.{process_decided_rounds_lem, process_decided_rounds-anchor}
use gource.Poset.Signatures.{process_sig_pool}
use gource.Poset.Signatures.Anchors.{process_loop-Anchors}
use gource.Poset.Queries.Caches.{Asks}
use gource.Poset.Bootstrap.{consensus_steps}

pub Extends-refl {ℓ} : {A : Type ℓ} (l : List A) → Extends l l
Extends-refl l = ([], sym (append-nil l))

pub Extends-of-eq {ℓ} : {A : Type ℓ} {l m : List A} → m ≡ l → Extends l m
Extends-of-eq {l = l} e = ([], e ∙ sym (append-nil l))

pub Extends-trans {ℓ} : {A : Type ℓ} (k l m : List A) → Extends k l → Extends l m → Extends k m
Extends-trans k l m (as_, p) (bs, q) = (as_ ++ bs, q ∙ ap (λ l. l ++ bs) p ∙ append_assoc k as_ bs)

UpTo-of-eq : {a b : Option ℤ} → b ≡ a → UpTo a b
UpTo-of-eq {a} e = rw e (UpTo-refl a)

module _ {env : Env} where
  -- The blocks that were sent stay, with new ones after them; the last consensus round and the anchor
  -- block do not move back.
  pub record Advances (s t : Poset env) : Type 0 where
    pub blocks : Extends s.committed t.committed
    pub last : UpTo s.last_consensus_round t.last_consensus_round
    pub anchor : UpTo s.anchor_block t.anchor_block

  pub Advances-IsOrder : IsOrder Advances
  Advances-IsOrder = record {
    stays = λ s. record {
      blocks = Extends-refl s.committed;
      last = UpTo-refl s.last_consensus_round;
      anchor = UpTo-refl s.anchor_block;
    };
    chain = λ s t u h k. record {
      blocks = Extends-trans s.committed t.committed u.committed h.blocks k.blocks;
      last =
          UpTo-trans s.last_consensus_round t.last_consensus_round u.last_consensus_round h.last
            k.last;
      anchor = UpTo-trans s.anchor_block t.anchor_block u.anchor_block h.anchor k.anchor;
    };
  }

  -- What leaves the three of them alone.
  pub still :
      {s t : Poset env}
      → t.committed ≡ s.committed
      → t.last_consensus_round ≡ s.last_consensus_round
      → t.anchor_block ≡ s.anchor_block
      → Advances s t
  still b l a = record { blocks = Extends-of-eq b; last = UpTo-of-eq l; anchor = UpTo-of-eq a }

  pub Asks-Advances : {A : Type 0} (m : Exec (Poset env) A) → Asks m → Steps Advances m
  Asks-Advances m a = record {
    at = λ s.
        still (ap (λ t. t.committed) (a.at s)) (ap (λ t. t.last_consensus_round) (a.at s))
          (ap (λ t. t.anchor_block) (a.at s));
  }

  number_event-Advances : (event : Event) → Steps Advances (number_event {env = env} event)
  unfolding number_event gets modify pure ◌>>=◌
  number_event-Advances event = record { at = λ s. still refl refl refl }

  enqueue-Advances : (event : Event) → Steps Advances (modify (enqueue {env = env} event))
  unfolding enqueue
  enqueue-Advances event = Steps-modify Advances-IsOrder _ (λ s. still refl refl refl)

  pub insert_event-Advances :
      (event : Event) (wire_info : Bool) → Steps Advances (insert_event {env = env} event wire_info)
  unfolding insert_event admit_event
  insert_event-Advances event wire_info =
      Steps-bind Advances-IsOrder _ _
        (Steps-bind Advances-IsOrder _ _ (Asks-Advances _ (check_event-Asks event)) (λ _.
          Steps-bind Advances-IsOrder _ _ (number_event-Advances event)
            (λ numbered. Asks-Advances _ (store_event-Asks numbered wire_info))))
        enqueue-Advances

  divide_rounds-Advances : (fuel : ℕ) → Steps Advances (divide_rounds {env = env} fuel)
  divide_rounds-Advances fuel = record {
    at = λ s.
        let q = (divide_rounds-Queues fuel s).queue in
        still (ap (λ t. t.committed) q) (ap (λ t. t.last_consensus_round) q)
          (ap (λ t. t.anchor_block) q);
  }

  decide_fame-Advances : (fuel : ℕ) → Steps Advances (decide_fame {env = env} fuel)
  decide_fame-Advances fuel = record {
    at = λ s.
        let q = (decide_fame_lem fuel s).0 in
        still (ap (λ t. t.committed) q) (ap (λ t. t.last_consensus_round) q)
          (ap (λ t. t.anchor_block) q);
  }

  decide_round_received-Advances :
      (fuel : ℕ) → Steps Advances (decide_round_received {env = env} fuel)
  decide_round_received-Advances fuel = record {
    at = λ s.
        let q = (decide_round_received_lem fuel s).0 in
        still (ap (λ t. t.committed) q) (ap (λ t. t.last_consensus_round) q)
          (ap (λ t. t.anchor_block) q);
  }

  process_decided_rounds-Advances :
      (fuel : ℕ) → Steps Advances (process_decided_rounds {env = env} fuel)
  process_decided_rounds-Advances fuel = record {
    at = λ s.
        let (_, last, blocks) = process_decided_rounds_lem fuel s in
        record {
          blocks = blocks;
          last = last;
          anchor = UpTo-of-eq (process_decided_rounds-anchor fuel s);
        };
  }

  process_sig_pool-Advances : Steps Advances (process_sig_pool {env = env})
  unfolding process_sig_pool
  process_sig_pool-Advances = record {
    at = λ s.
        let a = process_loop-Anchors s.sig_pool (pos 0) [] s in
        record { blocks = Extends-of-eq a.blocks; last = UpTo-of-eq a.last; anchor = a.anchor };
  }

  -- The five steps of the consensus, whether they end in an error or not, only send new blocks after those
  -- that were sent before, and move neither the last consensus round nor the anchor block back.
  pub consensus_steps-Advances : (fuel : ℕ) → Steps Advances (consensus_steps {env = env} fuel)
  unfolding consensus_steps
  consensus_steps-Advances fuel =
      Steps-bind Advances-IsOrder _ _ (divide_rounds-Advances fuel) (λ _.
        Steps-bind Advances-IsOrder _ _ (decide_fame-Advances fuel) (λ _.
          Steps-bind Advances-IsOrder _ _ (decide_round_received-Advances fuel) (λ _.
            Steps-bind Advances-IsOrder _ _ (process_decided_rounds-Advances fuel)
              (λ _. process_sig_pool-Advances))))
