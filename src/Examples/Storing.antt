-- ===== src/Examples/Storing.antt =====
-- A bbolt whose files are a map.
use task_orchestrator.Prelude.{
  Bool, true, false, Option, none, some, List, [], ◌∷◌, String, str_eq, length, if◌then◌else◌,
}
use task_orchestrator.Prelude.Assoc.{Assoc, lookup, insert, erase, String-Eq}
use task_orchestrator.Errors.{Error, foreign, sentinel, bucket_not_found, ok}
use task_orchestrator.Store.Bolt.{Bolt}

abbrev pub Buckets : Type 0
Buckets = Assoc String (Assoc String String)

pub record Database : Type 0 where
  pub path : String
  pub buckets : Buckets

abbrev pub or_empty : {A : Type 0} → Option (List A) → List A
or_empty none = []
or_empty (some l) = l

abbrev pub is_some : {A : Type 0} → Option A → Bool
is_some none = false
is_some (some _) = true

abbrev pub value_in : String → Option (Assoc String String) → Option String
value_in k none = none
value_in k (some m) = lookup k m

abbrev pub contents : String → Assoc String Buckets → Buckets
contents name fs = or_empty (lookup name fs)

abbrev pub has : String → Buckets → Bool
has b tx = is_some (lookup b tx)

abbrev pub value : String → String → Buckets → Option String
value b k tx = value_in k (lookup b tx)

abbrev pub committed : Database → Buckets × Option Error → Database × Option Error
committed d (tx, none) = (record d { buckets = tx }, none)
committed d (tx, some e) = (d, some e)

abbrev pub deleted_if : String → Buckets → Option (Assoc String String) → Buckets × Option Error
deleted_if b tx none = (tx, some (sentinel bucket_not_found))
deleted_if b tx (some _) = (erase b tx, none)

abbrev pub deleted : String → Buckets → Buckets × Option Error
deleted b tx = deleted_if b tx (lookup b tx)

abbrev pub created_if : String → Buckets → Option (Assoc String String) → Buckets × Option Error
created_if b tx none = (insert b [] tx, none)
created_if b tx (some _) = (tx, none)

abbrev pub created : String → Buckets → Buckets × Option Error
created b tx = created_if b tx (lookup b tx)

abbrev pub written_if :
    String → String → String → Buckets → Option (Assoc String String) → Buckets × Option Error
written_if b k v tx none = (tx, some foreign)
written_if b k v tx (some m) = (insert b (insert k v m) tx, none)

abbrev pub written : String → String → String → Buckets → Buckets × Option Error
written b k v tx = written_if b k v tx (lookup b tx)

abbrev pub is_value : String → Option String → Bool
is_value v none = false
is_value v (some u) = str_eq u v

-- The entries that a lookup finds.
abbrev pub found : Assoc String String → List (String × String) → List (String × String)
found m [] = []
found m ((k, v) ∷ r) = if is_value v (lookup k m) then (k, v) ∷ found m r else found m r

abbrev pub pairs_in : Option (Assoc String String) → List (String × String)
pairs_in none = []
pairs_in (some m) = found m m

abbrev pub pairs_of : String → Buckets → List (String × String)
pairs_of b tx = pairs_in (lookup b tx)

abbrev pub bolt : Bolt
bolt = record {
  Files = Assoc String Buckets;
  D = Database;
  Tx = Buckets;
  open_db = λ name mode fs. (fs, ok (record { path = name; buckets = contents name fs }));
  close = λ d. (d, none);
  release = λ d fs. insert d.path d.buckets fs;
  update = λ f d. committed d (f d.buckets);
  view = λ f d. f d.buckets;
  delete_bucket = deleted;
  create_bucket_if_not_exists = created;
  put = written;
  get = value;
  pairs = pairs_of;
  key_n = λ b tx. length (pairs_of b tx);
}
