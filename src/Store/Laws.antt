-- ===== src/Store/Laws.antt =====
-- internal/store/in_memory.go and the contract of a store.
use task_orchestrator.Prelude.{
  ◌≡◌, refl, ap, sym, subst, none, some, List, [], ◌∷◌, map, String, str_eq, str_eq_iff, arith, inl,
  inr, Bool-cases, In, All-In, DistinctBy, ◌≢◌, ◌∙◌,
}
use task_orchestrator.Prelude.Assoc.{Assoc, String-Eq, lookup, insert, lookup-insert, beq_refl}
use task_orchestrator.Errors.{Error, ok, err}
use task_orchestrator.Store.{StoreLaws}
use task_orchestrator.Store.InMemory.{InMemory, in_memory, new_in_memory, put, get, list}

module _ {T : Type 0} where
  -- A Go map has one entry for a key.
  abbrev KeysDiffer : Assoc String T → Type 0
  KeysDiffer [] = Unit
  KeysDiffer ((k, v) ∷ m) = (lookup k m ≡ none) × KeysDiffer m

  insert-KeysDiffer :
      (k : String) (v : T) (m : Assoc String T) → KeysDiffer m → KeysDiffer (insert k v m)
  unfolding insert
  insert-KeysDiffer k v [] d = (unfold lookup in refl, tt)
  insert-KeysDiffer k v ((j, w) ∷ m) d = elim (Bool-cases (str_eq j k)) [
    | inl e ↦ rw e d
    | inr e ↦ rw e (
      ground (arith, lookup-insert k j v m, str_eq_iff j k, str_eq_iff k j),
      insert-KeysDiffer k v m d.1,
    )
  ]

  lookup-In :
      (k : String) (v : T) (m : Assoc String T) → lookup k m ≡ some v → In v (map (λ e. e.1) m)
  unfolding lookup
  lookup-In k v [] h = cc
  lookup-In k v ((j, w) ∷ m) h = elim (Bool-cases (str_eq j k)) [
    | inl e ↦ inl (ground arith)
    | inr e ↦ inr (lookup-In k v m (ground arith))
  ]

  lookup-cons_new :
      (j k : String) (w : T) (m : Assoc String T) {v : T}
      → lookup j m ≡ none
      → lookup k m ≡ some v
      → lookup k ((j, w) ∷ m) ≡ some v
  unfolding lookup
  lookup-cons_new j k w m d h = elim (Bool-cases (str_eq j k)) [
    | inl e ↦ let same : j ≡ k = (str_eq_iff j k).0 e in cc (ap (λ x. lookup x m) same)
    | inr e ↦ rw e h
  ]

  In-lookup :
      (v : T) (m : Assoc String T)
      → KeysDiffer m
      → In v (map (λ e. e.1) m)
      → (k : String) × (lookup k m ≡ some v)
  In-lookup v [] d h = absurd h
  In-lookup v ((j, w) ∷ m) d (inl e) = (j, unfold lookup in rw (beq_refl j) (ap some e))
  In-lookup v ((j, w) ∷ m) d (inr h) =
      let (k, found) = In-lookup v m d.1 h in (k, lookup-cons_new j k w m d.0 found)

  abbrev values : InMemory T → List T
  values i = map (λ e. e.1) i.db

  get-found : (k : String) (v : T) (i : InMemory T) → get k i ≡ ok v → lookup k i.db ≡ some v
  unfolding get
  get-found k v i h = ground arith

  get-missing : (k : String) (e : Error) (i : InMemory T) → get k i ≡ err e → lookup k i.db ≡ none
  unfolding get
  get-missing k e i h = ground arith

  list-values : (i : InMemory T) (vs : List T) → list i ≡ ok vs → values i ≡ vs
  unfolding list
  list-values i vs h = cc

  pub map_laws : StoreLaws (in_memory T)
  unfolding put
  map_laws = record {
    view = λ i k. lookup k i.db;
    IsSound = λ i. KeysDiffer i.db;
    put-IsSound = λ k v i d. insert-KeysDiffer k v i.db d;
    put_stored = λ k j v i h. lookup-insert k j v i.db;
    put_failed = λ k j v i h. cc;
    get_found = get-found;
    get_missing = λ k e i h m. get-missing k e i h;
    list_stored = λ vs i d h v m. In-lookup v i.db d (subst (In v) (sym (list-values i vs h)) m);
    list_complete = λ vs i h k v m. subst (In v) (list-values i vs h) (lookup-In k v i.db m);
  }

  pub in_memory-StoreLaws : StoreLaws (in_memory T)
  in_memory-StoreLaws = map_laws

  pub new_in_memory-StoreLaws :
      (laws : StoreLaws (in_memory T)) × laws.IsSound new_in_memory
      × ((k : String) → laws.view new_in_memory k ≡ none)
  unfolding map_laws new_in_memory lookup
  new_in_memory-StoreLaws = (map_laws, tt, λ k. refl)

  -- With each value stored under its own key, the map lists each value once.
  values-DistinctBy :
      (key : T → String) (m : Assoc String T)
      → KeysDiffer m
      → ((k : String) (v : T) → lookup k m ≡ some v → key v ≡ k)
      → DistinctBy key (map (λ e. e.1) m)
  values-DistinctBy key [] d keyed = tt
  values-DistinctBy key ((j, w) ∷ m) d keyed = (
    All-In (λ u. key w ≢ key u) (map (λ e. e.1) m) differ,
    values-DistinctBy key m d.1 (λ k v h. keyed k v (lookup-cons_new j k w m d.0 h)),
  )
    where
      first : key w ≡ j
      first = keyed j w (unfold lookup in rw (beq_refl j))

      differ : (u : T) → In u (map (λ e. e.1) m) → key w ≢ key u
      differ u here same =
          let (k, found) = In-lookup u m d.1 here in
          let at : key u ≡ k = keyed k u (lookup-cons_new j k w m d.0 found) in
          let gone : lookup k m ≡ none =
            subst (λ i. lookup i m ≡ none) (sym first ∙ same ∙ at) d.0 in
          cc (found, gone)

  pub list-DistinctBy :
      (key : T → String) (i : InMemory T) (vs : List T)
      → map_laws.IsSound i
      → ((k : String) (v : T) → map_laws.view i k ≡ some v → key v ≡ k)
      → list i ≡ ok vs
      → DistinctBy key vs
  unfolding map_laws
  list-DistinctBy key i vs sound keyed h =
      subst (DistinctBy key) (list-values i vs h) (values-DistinctBy key i.db sound keyed)

  pub view-map_laws : (i : InMemory T) (k : String) → map_laws.view i k ≡ lookup k i.db
  unfolding map_laws
  view-map_laws i k = refl

  pub single-IsSound : (k : String) (v : T) → map_laws.IsSound (record { db = (k, v) ∷ [] })
  unfolding map_laws lookup
  single-IsSound k v = (refl, tt)
