-- ===== src/Examples/StoringLaws.antt =====
-- The laws of the bbolt whose files are a map.
use task_orchestrator.Prelude.{
  ℕ, ◌≡◌, refl, sym, ap, ◌∙◌, inl, inr, true, false, Option, none, some, [], ◌∷◌, String, str_eq,
  str_eq_iff, In, arith, if◌then◌else◌, Bool-cases, Option-cases,
}
use task_orchestrator.Prelude.Assoc.{
  Assoc, lookup, insert, erase, String-Eq, lookup-insert, lookup-erase,
}
use task_orchestrator.Errors.{Error, ok}
use task_orchestrator.Store.Bolt.{BoltLaws}
use task_orchestrator.Examples.Storing.{
  Buckets, Database, or_empty, is_some, value_in, contents, has, value, committed, deleted_if,
  deleted, created_if, created, written_if, written, is_value, found, pairs_in, pairs_of, bolt,
}

found-In : (m r : Assoc String String) (k v : String) → In (k, v) (found m r) → lookup k m ≡ some v
found-In m [] k v h = absurd h
found-In m ((j, u) ∷ r) k v h = elim (Option-cases (lookup j m)) [
  | inl e ↦ found-In m r k v (rw e at h)
  | inr (x, e) ↦ elim (Bool-cases (str_eq x u)) [
    | inl q ↦ elim (rw (e, q) at h) [
      | inl same ↦
          let key : j ≡ k = ap (λ (p : String × String). p.0) same in
          let val : u ≡ v = ap (λ (p : String × String). p.1) same in cc (e, (str_eq_iff x u).0 q)
      | inr i ↦ found-In m r k v i
    ]
    | inr q ↦ found-In m r k v (rw (e, q) at h)
  ]
]

In-found :
    (m r : Assoc String String) (k v : String)
    → lookup k m ≡ some v
    → lookup k r ≡ some v
    → In (k, v) (found m r)
unfolding lookup
In-found m [] k v e h = cc h
In-found m ((j, u) ∷ r) k v e h = elim (Bool-cases (str_eq j k)) [
  | inl q ↦
      let key : j ≡ k = (str_eq_iff j k).0 q in
      let val : u ≡ v = ground arith in
      let at : is_value u (lookup j m) ≡ true = rw (key, e) ((str_eq_iff v u).1 (sym val)) in
      rw at (inl (λ i. (key i, val i)))
  | inr q ↦
      let rest = In-found m r k v e (rw q at h) in
      elim (Bool-cases (is_value u (lookup j m))) [ inl t ↦ rw t (inr rest) | inr t ↦ rw t rest ]
]

pairs-get : (b k v : String) (tx : Buckets) → In (k, v) (pairs_of b tx) → value b k tx ≡ some v
pairs-get b k v tx = at (lookup b tx)
  where
    at : (o : Option (Assoc String String)) → In (k, v) (pairs_in o) → value_in k o ≡ some v
    at none h = absurd h
    at (some m) h = found-In m m k v h

get-pairs : (b k v : String) (tx : Buckets) → value b k tx ≡ some v → In (k, v) (pairs_of b tx)
get-pairs b k v tx = at (lookup b tx)
  where
    at : (o : Option (Assoc String String)) → value_in k o ≡ some v → In (k, v) (pairs_in o)
    at none h = cc h
    at (some m) h = In-found m m k v h h

-- A bucket that was just set.
lookup-insert_self :
    {V : Type 0} (k : String) (v : V) (m : Assoc String V) → lookup k (insert k v m) ≡ some v
lookup-insert_self k v m = lookup-insert k k v m ∙ (rw ((str_eq_iff k k).1 refl) refl)

get-put :
    (b k j v : String) (tx : Buckets)
    → (written b k v tx).1 ≡ none
    → value b j (written b k v tx).0 ≡ (if str_eq k j then some v else value b j tx)
get-put b k j v tx = at (lookup b tx)
  where
    at :
        (o : Option (Assoc String String))
        → (written_if b k v tx o).1 ≡ none
        → value b j (written_if b k v tx o).0 ≡ (if str_eq k j then some v else value_in j o)
    at none h = cc h
    at (some m) h = ap (value_in j) (lookup-insert_self b (insert k v m) tx) ∙ lookup-insert k j v m

has-written : (b k v : String) (tx : Buckets) → has b (written b k v tx).0 ≡ has b tx
has-written b k v tx = at (lookup b tx) refl
  where
    at :
        (o : Option (Assoc String String))
        → lookup b tx ≡ o
        → has b (written_if b k v tx o).0 ≡ is_some o
    at none e = ap is_some e
    at (some m) e = ap is_some (lookup-insert_self b (insert k v m) tx)

gone : {V : Type 0} (k : String) (m : Assoc String V) → lookup k (erase k m) ≡ none
gone k m = lookup-erase k k m ∙ (rw ((str_eq_iff k k).1 refl) refl)

has-deleted : (b : String) (tx : Buckets) → has b (deleted b tx).0 ≡ false
has-deleted b tx = at (lookup b tx) refl
  where
    at : (o : Option (Assoc String String)) → lookup b tx ≡ o → has b (deleted_if b tx o).0 ≡ false
    at none e = ap is_some e
    at (some m) e = ap is_some (gone b tx)

created-get :
    (b : String) (tx : Buckets)
    → has b tx ≡ false
    → (k : String) → value b k (created b tx).0 ≡ none
unfolding lookup
created-get b tx h k = at (lookup b tx) h
  where
    at :
        (o : Option (Assoc String String))
        → is_some o ≡ false
        → value b k (created_if b tx o).0 ≡ none
    at none h = ap (value_in k) (lookup-insert_self b [] tx)
    at (some m) h = cc h

created-same : (b : String) (tx : Buckets) → has b tx ≡ true → (created b tx).0 ≡ tx
created-same b tx = at (lookup b tx)
  where
    at : (o : Option (Assoc String String)) → is_some o ≡ true → (created_if b tx o).0 ≡ tx
    at none h = cc h
    at (some m) h = refl

created-has : (b : String) (tx : Buckets) → has b (created b tx).0 ≡ true
created-has b tx = at (lookup b tx) refl
  where
    at : (o : Option (Assoc String String)) → lookup b tx ≡ o → has b (created_if b tx o).0 ≡ true
    at none e = ap is_some (lookup-insert_self b [] tx)
    at (some m) e = ap is_some e

committed-cases :
    (d : Database) (r : Buckets × Option Error)
    → ((committed d r).1 ≡ none → (r.1 ≡ none) × ((committed d r).0.buckets ≡ r.0))
      × ((e : Error) → (committed d r).1 ≡ some e → (committed d r).0.buckets ≡ d.buckets)
      × ((committed d r).0.path ≡ d.path)
committed-cases d (tx, none) = ((λ h. (refl, refl)), (λ e h. cc h), refl)
committed-cases d (tx, some x) = ((λ h. cc h), (λ e h. refl), refl)

kept_file :
    (d : Database) (fs : Assoc String Buckets)
    → contents d.path (insert d.path d.buckets fs) ≡ d.buckets
kept_file d fs = ap or_empty (lookup-insert_self d.path d.buckets fs)

opens :
    (name : String) (mode : ℕ) (fs : bolt.Files) (d : Database)
    → (bolt.open_db name mode fs).1 ≡ ok d
    → (d.path ≡ name) × (d.buckets ≡ contents name fs)
opens name mode fs d h =
    let same : record { path = name; buckets = contents name fs } ≡ d = cc in
    (ap (λ (x : Database). x.path) (sym same), ap (λ (x : Database). x.buckets) (sym same))

pub bolt-BoltLaws : BoltLaws bolt
bolt-BoltLaws = record {
  snapshot = λ d. d.buckets;
  has_bucket = has;
  path = λ d. d.path;
  file = contents;
  open_reads = opens;
  file-release = kept_file;
  close_keeps = λ d. (refl, refl);
  path-update = λ f d. (committed-cases d (f d.buckets)).2;
  update_commits = λ f d. (committed-cases d (f d.buckets)).0;
  update_rolls_back = λ f d. (committed-cases d (f d.buckets)).1;
  view_runs = λ f d. inl refl;
  get-put = get-put;
  has_bucket-put = has-written;
  pairs-get = pairs-get;
  get-pairs = get-pairs;
  key_n-pairs = λ b tx. refl;
  delete_done = λ b tx h. has-deleted b tx;
  delete_missing = λ b tx e h m. has-deleted b tx;
  create_new = λ b tx h. created-get b tx;
  create_again = λ b tx h. created-same b tx;
  create_has = λ b tx h. created-has b tx;
}

-- The file of a worker with one task.
abbrev pub kept : Database
kept = record { path = "worker-tasks.db"; buckets = ("tasks", ("7", "job") ∷ []) ∷ [] }

pub kept-HasBucket : bolt-BoltLaws.has_bucket "tasks" (bolt-BoltLaws.snapshot kept) ≡ true
unfolding bolt-BoltLaws lookup
kept-HasBucket = refl

pub kept-path : bolt-BoltLaws.path kept ≡ "worker-tasks.db"
unfolding bolt-BoltLaws
kept-path = refl
