-- ===== src/Store/Bolt.antt =====
-- bbolt, as far as internal/store/persistent_store.go calls it: a parameter, with the behaviour that
-- it documents.
use task_orchestrator.Prelude.{
  ℕ, ◌≡◌, ◌⊎◌, Bool, true, false, Option, none, some, List, String, str_eq, length, In,
  if◌then◌else◌,
}
use task_orchestrator.Errors.{Error, not_found, bucket_not_found, errors_is, Result, ok, err}

-- Files are the file system, D an open database and Tx what a transaction sees of it. The functions
-- on a bucket take its name; on a missing bucket they would fault, and nothing is said of them.
pub record Bolt : Type 1 where
  pub Files : Type 0
  pub D : Type 0
  pub Tx : Type 0
  pub open_db : String → ℕ → Files → Files × Result D
  pub close : D → D × Option Error
  -- The files when the handle is closed.
  pub release : D → Files → Files
  -- `Update` and `View`. The captured variables that a function of `View` sets are its result.
  pub update : (Tx → Tx × Option Error) → D → D × Option Error
  pub view : {A : Type 0} → (Tx → Result A) → D → Result A
  pub delete_bucket : String → Tx → Tx × Option Error
  pub create_bucket_if_not_exists : String → Tx → Tx × Option Error
  pub put : String → String → String → Tx → Tx × Option Error
  pub get : String → String → Tx → Option String
  -- What a cursor yields from `First` on, by `Next`.
  pub pairs : String → Tx → List (String × String)
  pub key_n : String → Tx → ℕ

pub record BoltLaws (bolt : Bolt) : Type 1 where
  -- What a transaction sees that begins now, the buckets of it, and the file of a database.
  pub snapshot : bolt.D → bolt.Tx
  pub has_bucket : String → bolt.Tx → Bool
  pub path : bolt.D → String
  pub file : String → bolt.Files → bolt.Tx
  -- A database shows its file, and leaves it as the last transaction did.
  pub open_reads :
      (name : String) (mode : ℕ) (fs : bolt.Files) (d : bolt.D)
      → (bolt.open_db name mode fs).1 ≡ ok d
      → (path d ≡ name) × (snapshot d ≡ file name fs)
  pub file-release : (d : bolt.D) (fs : bolt.Files) → file (path d) (bolt.release d fs) ≡ snapshot d
  pub close_keeps :
      (d : bolt.D) → (path (bolt.close d).0 ≡ path d) × (snapshot (bolt.close d).0 ≡ snapshot d)
  -- A transaction commits, and then its function returned no error, or it is rolled back.
  pub path-update :
      (f : bolt.Tx → bolt.Tx × Option Error) (d : bolt.D) → path (bolt.update f d).0 ≡ path d
  pub update_commits :
      (f : bolt.Tx → bolt.Tx × Option Error) (d : bolt.D)
      → (bolt.update f d).1 ≡ none
      → ((f (snapshot d)).1 ≡ none) × (snapshot (bolt.update f d).0 ≡ (f (snapshot d)).0)
  pub update_rolls_back :
      (f : bolt.Tx → bolt.Tx × Option Error) (d : bolt.D) (e : Error)
      → (bolt.update f d).1 ≡ some e
      → snapshot (bolt.update f d).0 ≡ snapshot d
  -- A reading transaction runs, or fails with an error of bbolt's own.
  pub view_runs :
      {A : Type 0} (f : bolt.Tx → Result A) (d : bolt.D)
      → (bolt.view f d ≡ f (snapshot d))
        ⊎ ((e : Error) × (errors_is e not_found ≡ false) × (bolt.view f d ≡ err e))
  pub get-put :
      (b k j v : String) (tx : bolt.Tx)
      → (bolt.put b k v tx).1 ≡ none
      → bolt.get b j (bolt.put b k v tx).0 ≡ (if str_eq k j then some v else bolt.get b j tx)
  pub has_bucket-put :
      (b k v : String) (tx : bolt.Tx) → has_bucket b (bolt.put b k v tx).0 ≡ has_bucket b tx
  pub pairs-get :
      (b k v : String) (tx : bolt.Tx) → In (k, v) (bolt.pairs b tx) → bolt.get b k tx ≡ some v
  pub get-pairs :
      (b k v : String) (tx : bolt.Tx) → bolt.get b k tx ≡ some v → In (k, v) (bolt.pairs b tx)
  pub key_n-pairs : (b : String) (tx : bolt.Tx) → bolt.key_n b tx ≡ length (bolt.pairs b tx)
  pub delete_done :
      (b : String) (tx : bolt.Tx)
      → (bolt.delete_bucket b tx).1 ≡ none
      → has_bucket b (bolt.delete_bucket b tx).0 ≡ false
  pub delete_missing :
      (b : String) (tx : bolt.Tx) (e : Error)
      → (bolt.delete_bucket b tx).1 ≡ some e
      → errors_is e bucket_not_found ≡ true
      → has_bucket b (bolt.delete_bucket b tx).0 ≡ false
  pub create_new :
      (b : String) (tx : bolt.Tx)
      → (bolt.create_bucket_if_not_exists b tx).1 ≡ none
      → has_bucket b tx ≡ false
      → (k : String) → bolt.get b k (bolt.create_bucket_if_not_exists b tx).0 ≡ none
  pub create_again :
      (b : String) (tx : bolt.Tx)
      → (bolt.create_bucket_if_not_exists b tx).1 ≡ none
      → has_bucket b tx ≡ true
      → (bolt.create_bucket_if_not_exists b tx).0 ≡ tx
  pub create_has :
      (b : String) (tx : bolt.Tx)
      → (bolt.create_bucket_if_not_exists b tx).1 ≡ none
      → has_bucket b (bolt.create_bucket_if_not_exists b tx).0 ≡ true
