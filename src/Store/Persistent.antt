-- ===== src/Store/Persistent.antt =====
-- internal/store/persistent_store.go: a store in one bucket of a bbolt file, its values as JSON.
use task_orchestrator.Prelude.{
  ℕ, Bool, not, Option, none, some, List, [], ◌∷◌, String, str_eq, if◌then◌else◌,
}
use task_orchestrator.Errors.{
  Error, foreign, sentinel, origin, origin_of, not_found, bucket_not_found, errors_is, Result, ok,
  err, ◌>>=◌, or_origin,
}
use task_orchestrator.Store.{Store}
use task_orchestrator.Store.Bolt.{Bolt}

-- encoding/json at one type. `none` is an error.
pub record Json (T : Type 0) : Type 0 where
  pub encode : T → Option String
  pub decode : String → Option T

abbrev pub or_origin? : String → Option Error → Option Error
or_origin? op none = none
or_origin? op (some e) = some (origin_of op e)

module _ (bolt : Bolt) where
  module _ (bucket : String) where
    -- The end of the function that `CreateBucket` runs.
    unfoldable pub create_if_missing : bolt.Tx → bolt.Tx × Option Error
    create_if_missing tx =
        let (tx', e) = bolt.create_bucket_if_not_exists bucket tx in
        (tx', or_origin? "store.PersistentStore.CreateBucket" e)

    -- The function that `CreateBucket` runs.
    unfoldable pub create_bucket_tx : Bool → bolt.Tx → bolt.Tx × Option Error
    unfolding create_if_missing
    create_bucket_tx fresh_start tx =
        let (tx', deleted) = bolt.delete_bucket bucket tx in
        if not fresh_start then create_if_missing tx else elim deleted [
          | none ↦ create_if_missing tx'
          | some e ↦
              if not (errors_is e bucket_not_found)
              then (tx', some (origin_of "store.PersistentStore.CreateBucket" e))
              else create_if_missing tx'
        ]

    unfoldable pub create_bucket : Bool → bolt.D → bolt.D × Option Error
    unfolding create_bucket_tx
    create_bucket fresh_start d = bolt.update (create_bucket_tx fresh_start) d

  -- The database that `NewPersistentStore` leaves open. If the bucket cannot be made, the database
  -- stays open and is lost.
  unfoldable pub new_persistent_store :
      String → ℕ → String → Bool → bolt.Files → bolt.Files × Result bolt.D
  new_persistent_store db_file file_mode bucket fresh_start fs =
      let op : String = "store.PersistentStore.NewPersistentStore" in
      let (fs', opened) = bolt.open_db db_file file_mode fs in
      if str_eq db_file ""
      then (fs, err (origin op))
      else if str_eq bucket ""
      then (fs, err (origin op))
      else elim opened [
        | err e ↦ (fs', err (origin_of op e))
        | ok db ↦
            let (db', failed) = create_bucket bucket fresh_start db in
            (fs', elim failed [ some e ↦ err e | none ↦ ok db' ])
      ]

  unfoldable pub close : bolt.D → bolt.D × Option Error
  close d = let (d', e) = bolt.close d in (d', or_origin? "store.PersistentStore.Close" e)

  module _ {T : Type 0} (json : Json T) (bucket : String) where
    -- The function that `Put` runs.
    unfoldable pub put_tx : String → T → bolt.Tx → bolt.Tx × Option Error
    put_tx key value tx = elim (json.encode value) [
      | none ↦ (tx, some (origin_of "store.PersistentStore.Put" foreign))
      | some buf ↦
          let (tx', e) = bolt.put bucket key buf tx in
          (tx', or_origin? "store.PersistentStore.Put" e)
    ]

    unfoldable pub put : String → T → bolt.D → bolt.D × Option Error
    put key value d = bolt.update (put_tx key value) d

    -- The function that `Get` runs.
    unfoldable pub get_tx : String → bolt.Tx → Result T
    get_tx key tx = elim (bolt.get bucket key tx) [
      | none ↦ err (origin_of "store.PersistentStore.Get" (sentinel not_found))
      | some v ↦ elim (json.decode v) [
        | none ↦ err (origin_of "store.PersistentStore.Get" foreign)
        | some t ↦ ok t
      ]
    ]

    unfoldable pub get : String → bolt.D → Result T
    get key d = bolt.view (get_tx key) d

    -- The loop of `List` over what the cursor yields.
    unfoldable pub decode_all : List (String × String) → Result (List T)
    decode_all [] = ok []
    decode_all ((k, v) ∷ rest) =
        let items = decode_all rest in
        elim (json.decode v) [
          | none ↦ err (origin_of "store.PersistentStore.List" foreign)
          | some t ↦ do ts ← items; ok (t ∷ ts)
        ]

    unfoldable pub list : bolt.D → Result (List T)
    unfolding decode_all
    list d = bolt.view (λ tx. decode_all (bolt.pairs bucket tx)) d

    unfoldable pub count : bolt.D → Result ℕ
    count d =
        or_origin "store.PersistentStore.Count" (bolt.view (λ tx. ok (bolt.key_n bucket tx)) d)

    -- The open database as a `Store[T]`.
    abbrev pub persistent : Store T
    persistent = record {
      S = bolt.D;
      put = put;
      get = get;
      list = list;
      count = count;
      close = close;
    }
