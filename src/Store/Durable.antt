-- ===== src/Store/Durable.antt =====
-- internal/store/persistent_store.go and the contract of a store.
use task_orchestrator.Prelude.{
  ◌≡◌, refl, sym, ap, subst, ◌∙◌, inl, inr, true, Option, none, some, List, [], ◌∷◌, String, str_eq,
  if◌then◌else◌, arith, Bool-cases, Option-cases, In,
}
use task_orchestrator.Errors.{Error, not_found, errors_is, ok, err, Result-cases}
use task_orchestrator.Store.{StoreLaws}
use task_orchestrator.Store.Bolt.{Bolt, BoltLaws}
use task_orchestrator.Store.Persistent.{
  Json, put_tx, put, get_tx, get, decode_all, list, persistent,
}

-- What is encoded is decoded again.
abbrev pub RoundTrips : {T : Type 0} → Json T → Type 0
RoundTrips {T} json = (v : T) (s : String) → json.encode v ≡ some s → json.decode s ≡ some v

-- The value of a stored text.
abbrev value_of : {T : Type 0} → Json T → Option String → Option T
value_of json none = none
value_of json (some s) = json.decode s

module _ {bolt : Bolt} (laws : BoltLaws bolt) {T : Type 0} (json : Json T) (bucket : String) where
  -- What is stored under a key.
  abbrev pub stored : bolt.D → String → Option T
  stored d k = value_of json (bolt.get bucket k (laws.snapshot d))

  abbrev pub HasBucket : bolt.D → Type 0
  HasBucket d = laws.has_bucket bucket (laws.snapshot d) ≡ true

  -- A write that is committed was encoded and put.
  put-commits :
      (k : String) (v : T) (d : bolt.D)
      → (put bolt json bucket k v d).1 ≡ none
      → (s : String) × (json.encode v ≡ some s)
        × ((bolt.put bucket k s (laws.snapshot d)).1 ≡ none)
        × (laws.snapshot (put bolt json bucket k v d).0 ≡ (bolt.put bucket k s (laws.snapshot d)).0)
  unfolding put put_tx
  put-commits k v d h =
      let (done, after) = laws.update_commits (put_tx bolt json bucket k v) d h in
      elim (Option-cases (json.encode v)) [
        | inl e ↦ cc (
            let bad : (put_tx bolt json bucket k v (laws.snapshot d)).1 ≡ none = done in
            (rw (e, put_tx) at bad))
        | inr (s, e) ↦
            let step : (put_tx bolt json bucket k v (laws.snapshot d)).0
                ≡ (bolt.put bucket k s (laws.snapshot d)).0 =
              rw (e, put_tx) in
            (s, e, ground arith, after ∙ step)
      ]

  put-stored :
      (k j : String) (v : T) (d : bolt.D)
      → RoundTrips json
      → (put bolt json bucket k v d).1 ≡ none
      → stored (put bolt json bucket k v d).0 j ≡ (if str_eq k j then some v else stored d j)
  put-stored k j v d rt h =
      let (s, e, done, after) = put-commits k v d h in
      let read = laws.get-put bucket k j s (laws.snapshot d) done in
      elim (Bool-cases (str_eq k j)) [
        | inl q ↦
            ap (λ t. value_of json (bolt.get bucket j t)) after
            ∙ ap (value_of json) read
            ∙ (rw q (rt v s e))
        | inr q ↦
            ap (λ t. value_of json (bolt.get bucket j t)) after ∙ ap (value_of json) read ∙ (rw q)
      ]

  put-undone :
      (k j : String) (v : T) (d : bolt.D) (e : Error)
      → (put bolt json bucket k v d).1 ≡ some e
      → stored (put bolt json bucket k v d).0 j ≡ stored d j
  unfolding put
  put-undone k j v d e h =
      ap (λ t. value_of json (bolt.get bucket j t))
        (laws.update_rolls_back (put_tx bolt json bucket k v) d e h)

  put-HasBucket :
      (k : String) (v : T) (d : bolt.D) → HasBucket d → HasBucket (put bolt json bucket k v d).0
  put-HasBucket k v d h = elim (Option-cases (put bolt json bucket k v d).1) [
    | inl q ↦
        let (s, e, done, after) = put-commits k v d q in
        ap (laws.has_bucket bucket) after ∙ laws.has_bucket-put bucket k s (laws.snapshot d) ∙ h
    | inr (e, q) ↦
        let undone : laws.snapshot (put bolt json bucket k v d).0 ≡ laws.snapshot d =
          unfold put in laws.update_rolls_back (put_tx bolt json bucket k v) d e q in
        ap (laws.has_bucket bucket) undone ∙ h
  ]

  get-stored :
      (k : String) (v : T) (d : bolt.D) → get bolt json bucket k d ≡ ok v → stored d k ≡ some v
  unfolding get get_tx
  get-stored k v d h = elim (laws.view_runs (get_tx bolt json bucket k) d) [
    | inl q ↦
        let ran : get_tx bolt json bucket k (laws.snapshot d) ≡ ok v = sym q ∙ h in ground arith
    | inr (e, n, q) ↦ cc (sym q ∙ h)
  ]

  get-not_stored :
      (k : String) (e : Error) (d : bolt.D)
      → get bolt json bucket k d ≡ err e
      → errors_is e not_found ≡ true
      → stored d k ≡ none
  unfolding get get_tx errors_is
  get-not_stored k e d h m = elim (laws.view_runs (get_tx bolt json bucket k) d) [
    | inl q ↦
        let ran : get_tx bolt json bucket k (laws.snapshot d) ≡ err e = sym q ∙ h in ground arith
    | inr (x, n, q) ↦ let same : err x ≡ err e = sym q ∙ h in ground arith
  ]

  decode_all-cons :
      (k s : String) (rest : List (String × String)) (vs : List T)
      → decode_all bolt json bucket ((k, s) ∷ rest) ≡ ok vs
      → (t : T) × (ts : List T) × (json.decode s ≡ some t)
        × (decode_all bolt json bucket rest ≡ ok ts)
        × (vs ≡ t ∷ ts)
  unfolding decode_all
  decode_all-cons k s rest vs h = elim (Option-cases (json.decode s)) [
    | inl e ↦ cc (
        let bad : decode_all bolt json bucket ((k, s) ∷ rest) ≡ ok vs = h in
        (rw (e, decode_all) at bad))
    | inr (t, e) ↦ elim (Result-cases (decode_all bolt json bucket rest)) [
      | inl (ts, q) ↦ (t, ts, e, q, ground arith)
      | inr (x, q) ↦ absurd (ground arith)
    ]
  ]

  decode_all-In :
      (ps : List (String × String)) (vs : List T)
      → decode_all bolt json bucket ps ≡ ok vs
      → ((v : T) → In v vs → (k : String) × (s : String) × In (k, s) ps × (json.decode s ≡ some v))
        × ((k s : String) (v : T) → In (k, s) ps → json.decode s ≡ some v → In v vs)
  unfolding decode_all
  decode_all-In [] vs h =
      let z : [] ≡ vs = cc in
      ((λ v m. let n : In v [] = subst (In v) (sym z) m in absurd n), (λ j r v m. absurd m))
  decode_all-In ((k, s) ∷ ps) vs h =
      let (t, ts, e, q, split) = decode_all-cons k s ps vs h in
      let (sound, complete) = decode_all-In ps ts q in
      (
        (λ v m. elim (let n : In v (t ∷ ts) = subst (In v) split m in n) [
          | inl x ↦ (k, s, inl refl, e ∙ ap some x)
          | inr x ↦ let (j, r, at, d) = sound v x in (j, r, inr at, d)
        ]),
        (λ j r v m d. subst (In v) (sym split) (elim m [
          | inl x ↦ inl (let same : s ≡ r = ap (λ (p : String × String). p.1) x in ground arith)
          | inr x ↦ inr (complete j r v x d)
        ])),
      )

  list-pairs :
      (vs : List T) (d : bolt.D)
      → list bolt json bucket d ≡ ok vs
      → decode_all bolt json bucket (bolt.pairs bucket (laws.snapshot d)) ≡ ok vs
  unfolding list
  list-pairs vs d h =
      elim (laws.view_runs (λ tx. decode_all bolt json bucket (bolt.pairs bucket tx)) d) [
        | inl q ↦ sym q ∙ h
        | inr (e, n, q) ↦ cc (sym q ∙ h)
      ]

  list_sound :
      (vs : List T) (d : bolt.D)
      → list bolt json bucket d ≡ ok vs
      → (v : T) → In v vs
      → (k : String) × (stored d k ≡ some v)
  list_sound vs d h v m =
      let (k, s, at, e) = (decode_all-In _ vs (list-pairs vs d h)).0 v m in
      (k, ap (value_of json) (laws.pairs-get bucket k s (laws.snapshot d) at) ∙ e)

  list_all :
      (vs : List T) (d : bolt.D)
      → list bolt json bucket d ≡ ok vs
      → (k : String) (v : T) → stored d k ≡ some v
      → In v vs
  list_all vs d h k v m = elim (Option-cases (bolt.get bucket k (laws.snapshot d))) [
    | inl e ↦ cc (ap (value_of json) (sym e) ∙ m)
    | inr (s, e) ↦
        (decode_all-In _ vs (list-pairs vs d h)).1 k s v
          (laws.get-pairs bucket k s (laws.snapshot d) e) (ap (value_of json) (sym e) ∙ m)
  ]

  bucket_laws : RoundTrips json → StoreLaws (persistent bolt json bucket)
  bucket_laws rt = record {
    view = stored;
    IsSound = HasBucket;
    put-IsSound = put-HasBucket;
    put_stored = λ k j v d h. put-stored k j v d rt h;
    put_failed = λ k j v d {e} h. put-undone k j v d e h;
    get_found = get-stored;
    get_missing = get-not_stored;
    list_stored = λ vs d sound h. list_sound vs d h;
    list_complete = list_all;
  }

  -- The contract with the view and the soundness that it holds for.
  pub persistent-view :
      RoundTrips json
      → (laws : StoreLaws (persistent bolt json bucket)) × ((d : bolt.D)
          → HasBucket d
          → laws.IsSound d)
        × ((d : bolt.D) (k : String) → laws.view d k ≡ stored d k)
  unfolding bucket_laws
  persistent-view rt = (bucket_laws rt, (λ d h. h), λ d k. refl)
