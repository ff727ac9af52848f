-- ===== src/Service/Runner/Invariant/Instances.antt =====
-- Properties of the trees, with their laws: that they are valid, that they are consistent,
-- that a job is finished for good, and that a job is in one of them.
use pda_proxy.Base.{
  ◌≡◌, ◌≢◌, ◌⊎◌, inl, inr, ◌∙◌, sym, false, none, some, Bytes, ok, ◌==ᵇ◌, bytes_eq_iff, Bool-cases,
  if◌then◌else◌, [], ◌∷◌,
}
use pda_proxy.Service.Job.{JobStatus}
use pda_proxy.Service.Platform.{Platform, IsDocumented, queue_tx, finished_tx, remove, insert}
use pda_proxy.Service.Runner.Invariant.{AreValid, IsConsistent}
use pda_proxy.Service.Runner.Invariant.Laws.{TreeInvariant, IsLast, HasLast}
use pda_proxy.Service.Runner.Invariant.Trees.{
  finalized-AreValid, requeued-AreValid, inserted-AreValid, finalized-IsConsistent,
  requeued-IsConsistent, inserted-IsConsistent, finalized-queue, finalized-finished, requeued-queue,
  requeued-finished,
}

module _ (P : Platform) (D : IsDocumented P) where
  -- A job may be put into the queue without a look at the finished tree.
  abbrev pub validity : TreeInvariant P D
  validity = record {
    Good = AreValid P D;
    Allowed = λ key. Unit {0};
    Fresh = λ finished key. Unit {0};
    absent = λ finished key e. tt;
    final = λ queue finished key b inv e. inv.finished_final key b e;
    guarded = λ queue finished key inv. inl tt;
    finalized = λ q f q' f' key b status inv p e s h.
        finalized-AreValid P D q f q' f' key b h status e s inv;
    requeued = λ q f q' f' key b status inv p e s h.
        requeued-AreValid P D q f q' f' key b h status e s inv;
    inserted = λ q f q' key b status inv p e s fresh h.
        inserted-AreValid P D q f q' key b status e s h inv;
  }

  abbrev pub consistency : TreeInvariant P D
  consistency = record {
    Good = IsConsistent P D;
    Allowed = λ key. Unit {0};
    Fresh = λ finished key. D.contents finished key ≡ none;
    absent = λ finished key e. e;
    final = λ queue finished key b inv e. inv.valid.finished_final key b e;
    guarded = λ queue finished key inv. inl tt;
    finalized = λ q f q' f' key b status inv p e s h.
        finalized-IsConsistent P D q f q' f' key b h status e s inv;
    requeued = λ q f q' f' key b status inv p e s h.
        requeued-IsConsistent P D q f q' f' key b h status e s inv;
    inserted = λ q f q' key b status inv p e s fresh h.
        inserted-IsConsistent P D q f q' key b status e s h fresh inv;
  }

  -- Consistent trees with the last status of one job.
  pub record IsSettled (key b : Bytes) (queue finished : P.Tree) : Type 0 where
    pub consistent : IsConsistent P D queue finished
    pub unqueued : D.contents queue key ≡ none
    pub there : D.contents finished key ≡ some b

  pub consistent-IsSettled :
      (key b : Bytes) (queue finished : P.Tree)
      → IsConsistent P D queue finished
      → D.contents finished key ≡ some b
      → IsSettled key b queue finished
  consistent-IsSettled key b queue finished h there = record {
    consistent = h;
    unqueued = elim (h.exclusive key) [ inl unqueued ↦ unqueued | inr absent ↦ cc (absent, there) ];
    there = there;
  }

  module _ (key b : Bytes) (status : JobStatus P.Proof)
      (decoded : P.deserialize_status b ≡ ok status) (last : IsLast status) where
    pub elsewhere : (k : Bytes) → k ≢ key → (key ==ᵇ k) ≡ false
    elsewhere k ne = elim (Bool-cases (key ==ᵇ k)) [
      | inl same ↦ absurd (ne (sym ((bytes_eq_iff key k).0 same)))
      | inr differ ↦ differ
    ]

    pub same_or_allowed :
        (queue finished : P.Tree) (k : Bytes)
        → IsSettled key b queue finished
        → (k ≢ key) ⊎ HasLast P D queue finished k
    same_or_allowed queue finished k inv = elim (Bool-cases (k ==ᵇ key)) [
      | inl same ↦
          rw ((bytes_eq_iff k key).0 same) (inr (b, status, inv.unqueued, inv.there, decoded, last))
      | inr differ ↦ inl (λ same. cc ((bytes_eq_iff k key).1 same, differ))
    ]

    abbrev pub permanence : TreeInvariant P D
    permanence = record {
      Good = IsSettled key b;
      Allowed = λ k. k ≢ key;
      Fresh = λ finished k. D.contents finished k ≡ none;
      absent = λ finished k e. e;
      final = λ queue finished k c inv e. inv.consistent.valid.finished_final k c e;
      guarded = same_or_allowed;
      finalized = λ q f q' f' k c new inv p e s h. record {
        consistent = finalized-IsConsistent P D q f q' f' k c h new e s inv.consistent;
        unqueued = finalized-queue P D q f q' f' k c h key ∙ rw (elsewhere k p) inv.unqueued;
        there = finalized-finished P D q f q' f' k c h key ∙ rw (elsewhere k p) inv.there;
      };
      requeued = λ q f q' f' k c new inv p e s h. record {
        consistent = requeued-IsConsistent P D q f q' f' k c h new e s inv.consistent;
        unqueued = requeued-queue P D q f q' f' k c h key ∙ rw (elsewhere k p) inv.unqueued;
        there = requeued-finished P D q f q' f' k c h key ∙ rw (elsewhere k p) inv.there;
      };
      inserted = λ q f q' k c new inv p e s fresh h. record {
        consistent = inserted-IsConsistent P D q f q' k c new e s h fresh inv.consistent;
        unqueued = D.contents-insert q k c q' key h ∙ rw (elsewhere k p) inv.unqueued;
        there = inv.there;
      };
    }

  -- Valid trees one of which has the job.
  pub record IsKnown (key : Bytes) (queue finished : P.Tree) : Type 0 where
    pub valid : AreValid P D queue finished
    pub somewhere :
        ((b : Bytes) × (D.contents queue key ≡ some b))
        ⊎ ((b : Bytes) × (D.contents finished key ≡ some b))

  kept_or_given :
      (tree tree' : P.Tree) (k key c : Bytes)
      → ((j : Bytes) → D.contents tree' j ≡ (if j ==ᵇ k then some c else D.contents tree j))
      → ((b : Bytes) × (D.contents tree key ≡ some b))
      → (b : Bytes) × (D.contents tree' key ≡ some b)
  kept_or_given tree tree' k key c written (b, there) = elim (Bool-cases (key ==ᵇ k)) [
    | inl same ↦ (c, written key ∙ rw same)
    | inr differ ↦ (b, written key ∙ rw differ there)
  ]

  moved :
      (source source' to to' : P.Tree) (k key c : Bytes)
      → ((j : Bytes) → D.contents source' j ≡ (if j ==ᵇ k then none else D.contents source j))
      → ((j : Bytes) → D.contents to' j ≡ (if j ==ᵇ k then some c else D.contents to j))
      → ((b : Bytes) × (D.contents source key ≡ some b))
      → ((b : Bytes) × (D.contents source' key ≡ some b))
        ⊎ ((b : Bytes) × (D.contents to' key ≡ some b))
  moved source source' to to' k key c removed written (b, there) = elim (Bool-cases (key ==ᵇ k)) [
    | inl same ↦ inr (c, written key ∙ rw same)
    | inr differ ↦ inl (b, removed key ∙ rw differ there)
  ]

  pub finalized-somewhere :
      (queue finished queue' finished' : P.Tree) (k key c : Bytes)
      → P.transaction (queue, finished) (remove queue_tx k ∷ insert finished_tx k c ∷ [])
        ≡ ok (queue', finished')
      → IsKnown key queue finished
      → ((b : Bytes) × (D.contents queue' key ≡ some b))
        ⊎ ((b : Bytes) × (D.contents finished' key ≡ some b))
  finalized-somewhere q f q' f' k key c h inv = elim inv.somewhere [
    | inl there ↦
        moved q q' f f' k key c (finalized-queue P D q f q' f' k c h)
          (finalized-finished P D q f q' f' k c h) there
    | inr there ↦ inr (kept_or_given f f' k key c (finalized-finished P D q f q' f' k c h) there)
  ]

  pub requeued-somewhere :
      (queue finished queue' finished' : P.Tree) (k key c : Bytes)
      → P.transaction (queue, finished) (remove finished_tx k ∷ insert queue_tx k c ∷ [])
        ≡ ok (queue', finished')
      → IsKnown key queue finished
      → ((b : Bytes) × (D.contents queue' key ≡ some b))
        ⊎ ((b : Bytes) × (D.contents finished' key ≡ some b))
  requeued-somewhere q f q' f' k key c h inv = elim inv.somewhere [
    | inl there ↦ inl (kept_or_given q q' k key c (requeued-queue P D q f q' f' k c h) there)
    | inr there ↦
        elim (moved f f' q q' k key c (requeued-finished P D q f q' f' k c h)
          (requeued-queue P D q f q' f' k c h) there) [
            | inl kept ↦ inr kept
            | inr given ↦ inl given
          ]
  ]

  pub inserted-somewhere :
      (queue finished queue' : P.Tree) (k key c : Bytes)
      → P.insert_into queue k c ≡ ok queue'
      → IsKnown key queue finished
      → ((b : Bytes) × (D.contents queue' key ≡ some b))
        ⊎ ((b : Bytes) × (D.contents finished key ≡ some b))
  inserted-somewhere q f q' k key c h inv = elim inv.somewhere [
    | inl there ↦ inl (kept_or_given q q' k key c (λ j. D.contents-insert q k c q' j h) there)
    | inr there ↦ inr there
  ]

  abbrev pub presence : Bytes → TreeInvariant P D
  presence key = record {
    Good = IsKnown key;
    Allowed = λ k. Unit {0};
    Fresh = λ finished k. Unit {0};
    absent = λ finished k e. tt;
    final = λ queue finished k b inv e. inv.valid.finished_final k b e;
    guarded = λ queue finished k inv. inl tt;
    finalized = λ q f q' f' k c status inv p e s h. record {
      valid = finalized-AreValid P D q f q' f' k c h status e s inv.valid;
      somewhere = finalized-somewhere q f q' f' k key c h inv;
    };
    requeued = λ q f q' f' k c status inv p e s h. record {
      valid = requeued-AreValid P D q f q' f' k c h status e s inv.valid;
      somewhere = requeued-somewhere q f q' f' k key c h inv;
    };
    inserted = λ q f q' k c status inv p e s fresh h. record {
      valid = inserted-AreValid P D q f q' k c status e s h inv.valid;
      somewhere = inserted-somewhere q f q' k key c h inv;
    };
  }
