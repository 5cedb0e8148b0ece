-- ===== src/Store/Opening.antt =====
-- What a persistent store holds when it has been opened, fresh or not.
use task_orchestrator.Prelude.{
  ℕ, ◌≡◌, refl, sym, ap, subst, ◌∙◌, inl, inr, Bool, true, false, none, String, str_eq, arith,
  Bool-cases, Option-cases,
}
use task_orchestrator.Errors.{bucket_not_found, errors_is, ok, Result-cases}
use task_orchestrator.Store.Bolt.{Bolt, BoltLaws}
use task_orchestrator.Store.Persistent.{
  Json, create_if_missing, create_bucket_tx, create_bucket, new_persistent_store, close,
}
use task_orchestrator.Store.Durable.{stored, HasBucket}

module _ {bolt : Bolt} (laws : BoltLaws bolt) (bucket : String) where
  created-none :
      (tx : bolt.Tx)
      → (create_if_missing bolt bucket tx).1 ≡ none
      → ((bolt.create_bucket_if_not_exists bucket tx).1 ≡ none)
        × ((create_if_missing bolt bucket tx).0 ≡ (bolt.create_bucket_if_not_exists bucket tx).0)
  unfolding create_if_missing
  created-none tx h = elim (Option-cases (bolt.create_bucket_if_not_exists bucket tx).1) [
    | inl e ↦ (e, refl)
    | inr (x, e) ↦ absurd (ground arith)
  ]

  -- A fresh start deletes the bucket or finds none, and makes it.
  fresh_tx :
      (tx : bolt.Tx)
      → (create_bucket_tx bolt bucket true tx).1 ≡ none
      → (gone : bolt.Tx) × (laws.has_bucket bucket gone ≡ false)
        × ((create_if_missing bolt bucket gone).1 ≡ none)
        × ((create_bucket_tx bolt bucket true tx).0 ≡ (create_if_missing bolt bucket gone).0)
  unfolding create_bucket_tx
  fresh_tx tx h =
      let gone = (bolt.delete_bucket bucket tx).0 in
      elim (Option-cases (bolt.delete_bucket bucket tx).1) [
        | inl e ↦ (gone, laws.delete_done bucket tx e, ground arith, ground arith)
        | inr (x, e) ↦ elim (Bool-cases (errors_is x bucket_not_found)) [
          | inl m ↦ (gone, laws.delete_missing bucket tx x e m, ground arith, ground arith)
          | inr m ↦ absurd (ground arith)
        ]
      ]

  kept_tx :
      (tx : bolt.Tx) → create_bucket_tx bolt bucket false tx ≡ create_if_missing bolt bucket tx
  unfolding create_bucket_tx
  kept_tx tx = refl

  module _ (d : bolt.D) where
    abbrev after : Bool → bolt.D
    after fresh = (create_bucket bolt bucket fresh d).0

    commits :
        (fresh : Bool)
        → (create_bucket bolt bucket fresh d).1 ≡ none
        → ((create_bucket_tx bolt bucket fresh (laws.snapshot d)).1 ≡ none)
          × (laws.snapshot (after fresh) ≡ (create_bucket_tx bolt bucket fresh (laws.snapshot d)).0)
    unfolding create_bucket
    commits fresh h = laws.update_commits (create_bucket_tx bolt bucket fresh) d h

    create_bucket-fresh :
        (create_bucket bolt bucket true d).1 ≡ none
        → (laws.has_bucket bucket (laws.snapshot (after true)) ≡ true)
          × ((k : String) → bolt.get bucket k (laws.snapshot (after true)) ≡ none)
    create_bucket-fresh h =
        let (done, seen) = commits true h in
        let (gone, no_bucket, created, same) = fresh_tx (laws.snapshot d) done in
        let (made, same') = created-none gone created in
        let all = seen ∙ same ∙ same' in
        (
          ap (laws.has_bucket bucket) all ∙ laws.create_has bucket gone made,
          (λ k. ap (bolt.get bucket k) all ∙ laws.create_new bucket gone made no_bucket k),
        )

    create_bucket-has :
        (fresh : Bool)
        → (create_bucket bolt bucket fresh d).1 ≡ none
        → laws.has_bucket bucket (laws.snapshot (after fresh)) ≡ true
    create_bucket-has true h = (create_bucket-fresh h).0
    create_bucket-has false h =
        let (done, seen) = commits false h in
        let kept = kept_tx (laws.snapshot d) in
        let (made, same) = created-none (laws.snapshot d) (ap (λ r. r.1) (sym kept) ∙ done) in
        ap (laws.has_bucket bucket) (seen ∙ ap (λ r. r.0) kept ∙ same)
        ∙ laws.create_has bucket (laws.snapshot d) made

    create_bucket-kept :
        (create_bucket bolt bucket false d).1 ≡ none
        → laws.has_bucket bucket (laws.snapshot d) ≡ true
        → laws.snapshot (after false) ≡ laws.snapshot d
    create_bucket-kept h there =
        let (done, seen) = commits false h in
        let kept = kept_tx (laws.snapshot d) in
        let (made, same) = created-none (laws.snapshot d) (ap (λ r. r.1) (sym kept) ∙ done) in
        seen ∙ ap (λ r. r.0) kept ∙ same ∙ laws.create_again bucket (laws.snapshot d) made there

    -- The database, and its path, behind a store that was opened.
    path-create_bucket : (fresh : Bool) → laws.path (after fresh) ≡ laws.path d
    unfolding create_bucket
    path-create_bucket fresh = laws.path-update (create_bucket_tx bolt bucket fresh) d

  opened :
      (name : String) (mode : ℕ) (fresh : Bool) (fs : bolt.Files) (d : bolt.D)
      → (new_persistent_store bolt name mode bucket fresh fs).1 ≡ ok d
      → (d' : bolt.D) × ((bolt.open_db name mode fs).1 ≡ ok d')
        × ((create_bucket bolt bucket fresh d').1 ≡ none)
        × ((create_bucket bolt bucket fresh d').0 ≡ d)
  unfolding new_persistent_store
  opened name mode fresh fs d h = elim (Bool-cases (str_eq name "")) [
    | inl a ↦ absurd (ground arith)
    | inr a ↦ elim (Bool-cases (str_eq bucket "")) [
      | inl b ↦ absurd (ground arith)
      | inr b ↦ elim (Result-cases (bolt.open_db name mode fs).1) [
        | inr (e, o) ↦ absurd (ground arith)
        | inl (d', o) ↦ elim (Option-cases (create_bucket bolt bucket fresh d').1) [
          | inl c ↦ (d', o, c, ground arith)
          | inr (e, c) ↦ absurd (ground arith)
        ]
      ]
    ]
  ]

module _ {bolt : Bolt} (laws : BoltLaws bolt) {T : Type 0} (json : Json T) (bucket : String) where
  pub new_persistent_store-HasBucket :
      (name : String) (mode : ℕ) (fresh : Bool) (fs : bolt.Files) (d : bolt.D)
      → (new_persistent_store bolt name mode bucket fresh fs).1 ≡ ok d
      → HasBucket laws json bucket d
  new_persistent_store-HasBucket name mode fresh fs d h =
      let (d', o, c, same) = opened laws bucket name mode fresh fs d h in
      subst (HasBucket laws json bucket) same (create_bucket-has laws bucket d' fresh c)

  -- A store that is opened with a fresh start has its bucket and holds nothing, whatever the file
  -- held.
  pub new_persistent_store-fresh :
      (name : String) (mode : ℕ) (fs : bolt.Files) (d : bolt.D)
      → (new_persistent_store bolt name mode bucket true fs).1 ≡ ok d
      → HasBucket laws json bucket d × ((k : String) → stored laws json bucket d k ≡ none)
  new_persistent_store-fresh name mode fs d h =
      let (d', o, c, same) = opened laws bucket name mode true fs d h in
      let (there, empty) = create_bucket-fresh laws bucket d' c in
      (
        subst (HasBucket laws json bucket) same there,
        (λ k. subst (λ x. stored laws json bucket x k ≡ none) same (rw (empty k))),
      )

  -- What a store holds when it is closed is there again when its file is opened without a fresh
  -- start, under every key.
  pub new_persistent_store-reopened :
      (name : String) (mode : ℕ) (fs : bolt.Files) (d d' : bolt.D)
      → HasBucket laws json bucket d
      → laws.path d ≡ name
      → (new_persistent_store bolt name mode bucket false (bolt.release (close bolt d).0 fs)).1
        ≡ ok d'
      → (k : String) → stored laws json bucket d' k ≡ stored laws json bucket d k
  unfolding close
  new_persistent_store-reopened name mode fs d d' there at h k =
      let closed = (close bolt d).0 in
      let (opened_d, o, c, same) =
        opened laws bucket name mode false (bolt.release closed fs) d' h in
      let (p, q) = laws.close_keeps d in
      let (_, read) = laws.open_reads name mode (bolt.release closed fs) opened_d o in
      let seen : laws.snapshot opened_d ≡ laws.snapshot d =
        read
        ∙ ap (λ n. laws.file n (bolt.release closed fs)) (sym (p ∙ at))
        ∙ laws.file-release closed fs
        ∙ q in
      let bucket_there : laws.has_bucket bucket (laws.snapshot opened_d) ≡ true =
        ap (laws.has_bucket bucket) seen ∙ there in
      let all : laws.snapshot d' ≡ laws.snapshot d =
        ap laws.snapshot (sym same)
        ∙ create_bucket-kept laws bucket opened_d c bucket_there
        ∙ seen in
      rw all
