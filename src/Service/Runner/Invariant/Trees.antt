-- ===== src/Service/Runner/Invariant/Trees.antt =====
-- Valid and consistent trees under the three writes that the runner makes to them.
use pda_proxy.Base.{
  ◌≡◌, refl, ◌∙◌, sym, ap, Bool, true, false, Option, none, some, ◌⊎◌, inl, inr, [], ◌∷◌, Bytes, ok,
  ◌==ᵇ◌, bytes_eq_iff, if◌then◌else◌, Bool-cases,
}
use mathlib.Core.Option.{some-injective}
use pda_proxy.Service.Job.{JobStatus}
use pda_proxy.Service.Platform.{Platform, IsDocumented, queue_tx, finished_tx, remove, insert}
use pda_proxy.Service.Runner.Invariant.{IsPending, IsFinal, Holds, AreValid, IsConsistent}

module _ (P : Platform) (D : IsDocumented P) where
  written :
      (Q : JobStatus P.Proof → Type 0) (status : JobStatus P.Proof) (b : Bytes)
      → P.serialize_status status ≡ ok b
      → Q status
      → Holds P Q b
  written Q status b e q = (status, D.deserialize-serialize status b e, q)

  -- What is read of a tree after one of its keys was given the bytes `b`.
  read_written :
      (Q : JobStatus P.Proof → Type 0) (hit : Bool) (old : Option Bytes) (b c : Bytes)
      → Holds P Q b
      → ((d : Bytes) → old ≡ some d → Holds P Q d)
      → (if hit then some b else old) ≡ some c
      → Holds P Q c
  read_written Q true old b c new before e = rw (← some-injective b c e) new
  read_written Q false old b c new before e = before c e

  read_removed :
      (Q : JobStatus P.Proof → Type 0) (hit : Bool) (old : Option Bytes) (c : Bytes)
      → ((d : Bytes) → old ≡ some d → Holds P Q d)
      → (if hit then none else old) ≡ some c
      → Holds P Q c
  read_removed Q true old c before e = cc
  read_removed Q false old c before e = before c e

  still_exclusive :
      (hit : Bool) (a b : Option Bytes) (c : Bytes)
      → (a ≡ none) ⊎ (b ≡ none)
      → ((if hit then none else a) ≡ none) ⊎ ((if hit then some c else b) ≡ none)
  still_exclusive true a b c h = inl refl
  still_exclusive false a b c h = h

  flip : {A B : Type 0} → A ⊎ B → B ⊎ A
  flip (inl a) = inr a
  flip (inr b) = inl b

  module _ (queue finished queue' finished' : P.Tree) (key b : Bytes)
      (h : P.transaction (queue, finished) (remove queue_tx key ∷ insert finished_tx key b ∷ [])
        ≡ ok (queue', finished')) where
    pub finalized-queue :
        (k : Bytes) → D.contents queue' k ≡ (if k ==ᵇ key then none else D.contents queue k)
    finalized-queue k = (D.contents-transaction queue finished _ queue' finished' k h).0

    pub finalized-finished :
        (k : Bytes) → D.contents finished' k ≡ (if k ==ᵇ key then some b else D.contents finished k)
    finalized-finished k = (D.contents-transaction queue finished _ queue' finished' k h).1

    pub finalized-AreValid :
        (status : JobStatus P.Proof)
        → P.serialize_status status ≡ ok b
        → IsFinal status
        → AreValid P D queue finished
        → AreValid P D queue' finished'
    finalized-AreValid status e q inv = record {
      queued_pending = λ k c f.
          read_removed IsPending (k ==ᵇ key) _ c (inv.queued_pending k)
            (sym (finalized-queue k) ∙ f);
      finished_final = λ k c f.
          read_written IsFinal (k ==ᵇ key) _ b c (written IsFinal status b e q)
            (inv.finished_final k) (sym (finalized-finished k) ∙ f);
    }

    pub finalized-IsConsistent :
        (status : JobStatus P.Proof)
        → P.serialize_status status ≡ ok b
        → IsFinal status
        → IsConsistent P D queue finished
        → IsConsistent P D queue' finished'
    finalized-IsConsistent status e q inv = record {
      exclusive = λ k.
          rw (finalized-queue k, finalized-finished k)
            (still_exclusive (k ==ᵇ key) _ _ b (inv.exclusive k));
      valid = finalized-AreValid status e q inv.valid;
    }

  module _ (queue finished queue' finished' : P.Tree) (key b : Bytes)
      (h : P.transaction (queue, finished) (remove finished_tx key ∷ insert queue_tx key b ∷ [])
        ≡ ok (queue', finished')) where
    pub requeued-queue :
        (k : Bytes) → D.contents queue' k ≡ (if k ==ᵇ key then some b else D.contents queue k)
    requeued-queue k = (D.contents-transaction queue finished _ queue' finished' k h).0

    pub requeued-finished :
        (k : Bytes) → D.contents finished' k ≡ (if k ==ᵇ key then none else D.contents finished k)
    requeued-finished k = (D.contents-transaction queue finished _ queue' finished' k h).1

    pub requeued-AreValid :
        (status : JobStatus P.Proof)
        → P.serialize_status status ≡ ok b
        → IsPending status
        → AreValid P D queue finished
        → AreValid P D queue' finished'
    requeued-AreValid status e q inv = record {
      queued_pending = λ k c f.
          read_written IsPending (k ==ᵇ key) _ b c (written IsPending status b e q)
            (inv.queued_pending k) (sym (requeued-queue k) ∙ f);
      finished_final = λ k c f.
          read_removed IsFinal (k ==ᵇ key) _ c (inv.finished_final k)
            (sym (requeued-finished k) ∙ f);
    }

    pub requeued-IsConsistent :
        (status : JobStatus P.Proof)
        → P.serialize_status status ≡ ok b
        → IsPending status
        → IsConsistent P D queue finished
        → IsConsistent P D queue' finished'
    requeued-IsConsistent status e q inv = record {
      exclusive = λ k.
          rw (requeued-queue k, requeued-finished k)
            (flip (still_exclusive (k ==ᵇ key) _ _ b (flip (inv.exclusive k))));
      valid = requeued-AreValid status e q inv.valid;
    }

  module _ (queue finished queue' : P.Tree) (key b : Bytes) (status : JobStatus P.Proof)
      (e : P.serialize_status status ≡ ok b) (q : IsPending status)
      (h : P.insert_into queue key b ≡ ok queue') where
    pub inserted-AreValid : AreValid P D queue finished → AreValid P D queue' finished
    inserted-AreValid inv = record {
      queued_pending = λ k c f.
          read_written IsPending (k ==ᵇ key) _ b c (written IsPending status b e q)
            (inv.queued_pending k) (sym (D.contents-insert queue key b queue' k h) ∙ f);
      finished_final = inv.finished_final;
    }

    exclusive_at :
        (k : Bytes)
        → D.contents finished key ≡ none
        → (D.contents queue k ≡ none) ⊎ (D.contents finished k ≡ none)
        → ((if k ==ᵇ key then some b else D.contents queue k) ≡ none)
          ⊎ (D.contents finished k ≡ none)
    exclusive_at k fresh before = elim (Bool-cases (k ==ᵇ key)) [
      | inl same ↦ inr (ap (D.contents finished) ((bytes_eq_iff k key).0 same) ∙ fresh)
      | inr differ ↦ rw differ before
    ]

    -- A new key in the queue, where `finished` does not have it.
    pub inserted-IsConsistent :
        D.contents finished key ≡ none
        → IsConsistent P D queue finished
        → IsConsistent P D queue' finished
    inserted-IsConsistent fresh inv = record {
      exclusive = λ k.
          rw (D.contents-insert queue key b queue' k h) (exclusive_at k fresh (inv.exclusive k));
      valid = inserted-AreValid inv.valid;
    }
