-- ===== src/Server.antt =====
-- server/src/main.rs: the handlers of the HTTP server, each one transaction from its start to the
-- drop of its handle. The decoding of requests, the text of the errors and the conversion of values
-- to text belong to the web framework and the standard library.
pub mod Replies
pub mod Requests
pub mod Handlers
pub mod Refinement
use stupid_kv.Base.{
  ℕ, Bool, true, false, Option, none, some, List, [], ◌∷◌, Bytes, Result, ok, err, Crates,
}
use stupid_kv.Persistence.{Disk}
use stupid_kv.Db.{Inner}
use stupid_kv.Tx.{
  TransactionInner, Error, key_write_conflict, key_read_conflict, key_already_exists, get, exists,
  put, set, del,
}
use stupid_kv.Tx.Commit.{commit}
use stupid_kv.Pool.{Pool, drop}
use stupid_kv.Pool

pub data StatusCode : Type 0 where
  conflict internal_server_error : StatusCode

unfoldable pub map_kv_error : Error → StatusCode
map_kv_error key_write_conflict = conflict
map_kv_error key_read_conflict = conflict
map_kv_error key_already_exists = conflict
map_kv_error _ = internal_server_error

abbrev pub ApiResult : Type 0 → Type 0
ApiResult A = Result (StatusCode × Error) A

abbrev pub api_result : {A : Type 0} → Result Error A → ApiResult A
api_result (ok a) = ok a
api_result (err e) = err (map_kv_error e, e)

module _ ⦃c : Crates⦄ where
  abbrev pub Reply : Type 0 → Type 0
  Reply A = Option (ApiResult A × Pool × Inner)

  -- The handle is dropped when the handler returns.
  unfoldable pub dropping :
      {A : Type 0} → Result Error A → Pool → Inner → TransactionInner → Reply A
  dropping result pool db tx = elim (drop pool db (some tx)) [
    | none ↦ none
    | some (pool', db') ↦ some (api_result result, pool', db')
  ]

  -- A transaction that reads.
  unfoldable pub reading :
      {A : Type 0}
      → (Inner → TransactionInner → Result Error A × TransactionInner)
      → Pool
      → Inner
      → Reply A
  unfolding dropping
  reading action pool db = elim (Pool.get pool db false) [
    | none ↦ none
    | some (tx, pool', db') ↦ let (result, tx') = action db' tx in dropping result pool' db' tx'
  ]

  -- The commit after the writes, and the value that is answered where it succeeds.
  abbrev pub answer : {A : Type 0} → A → Result Error (Unit {0}) → Result Error A
  answer a (ok u) = ok a
  answer a (err e) = err e

  unfoldable pub committing :
      {A : Type 0} → ℕ → List ℕ → Disk → Pool → Inner → Result Error A × TransactionInner → Reply A
  unfolding dropping
  committing rounds instants disk pool db (err e, tx) = dropping (err e) pool db tx
  committing rounds instants disk pool db (ok a, tx) = elim (commit rounds instants disk db tx) [
    | none ↦ none
    | some (result, db', tx') ↦ dropping (answer a result) pool db' tx'
  ]

  -- A transaction that writes and commits.
  unfoldable pub writing :
      {A : Type 0}
      → (Inner → TransactionInner → Result Error A × TransactionInner)
      → ℕ
      → List ℕ
      → Disk
      → Pool
      → Inner
      → Reply A
  unfolding committing
  writing action rounds instants disk pool db = elim (Pool.get pool db true) [
    | none ↦ none
    | some (tx, pool', db') ↦ committing rounds instants disk pool' db' (action db' tx)
  ]

  unfoldable pub get_handler : Bytes → Pool → Inner → Reply (Option Bytes)
  unfolding reading
  get_handler key pool db = reading (λ db' tx. get db' tx key) pool db

  unfoldable pub exists_handler : Bytes → Pool → Inner → Reply Bool
  unfolding reading
  exists_handler key pool db = reading (λ db' tx. exists db' tx key) pool db

  unfoldable pub insert_handler :
      Bytes → Bytes → ℕ → List ℕ → Disk → Pool → Inner → Reply (Unit {0})
  unfolding writing
  insert_handler key value = writing (λ db tx. put db tx key value)

  unfoldable pub update_handler :
      Bytes → Bytes → ℕ → List ℕ → Disk → Pool → Inner → Reply (Unit {0})
  unfolding writing
  update_handler key value = writing (λ db tx. set tx key value)

  -- The value is read before it is deleted.
  abbrev pub deleting :
      Bytes
      → Result Error (Option Bytes) × TransactionInner
      → Result Error (Option Bytes) × TransactionInner
  deleting key (err e, tx) = (err e, tx)
  deleting key (ok value, tx) = (answer value (del tx key).0, (del tx key).1)

  unfoldable pub delete_handler : Bytes → ℕ → List ℕ → Disk → Pool → Inner → Reply (Option Bytes)
  unfolding writing
  delete_handler key = writing (λ db tx. deleting key (get db tx key))

-- The five routes, each with what the framework decodes from the request.
pub data Request : Type 0 where
  get_route exists_route delete_route : Bytes → Request
  insert_route update_route : Bytes → Bytes → Request

pub data Response : Type 0 where
  value : ApiResult (Option Bytes) → Response
  existence : ApiResult Bool → Response
  written : ApiResult (Unit {0}) → Response

-- A request with the clock readings and the disk that its commit meets.
pub record Call : Type 0 where
  pub request : Request
  pub instant : ℕ
  pub instants : List ℕ
  pub disk : Disk

module _ ⦃c : Crates⦄ where
  abbrev pub Handled : Type 0
  Handled = Option (Response × Pool × Inner)

  unfoldable pub responding : {A : Type 0} → (ApiResult A → Response) → Reply A → Handled
  responding response none = none
  responding response (some (result, pool, db)) = some (response result, pool, db)

  -- `make_app`: the route chooses the handler.
  unfoldable pub route : Call → Pool → Inner → Request → Handled
  unfolding responding
  route call pool db (get_route key) = responding value (get_handler key pool db)
  route call pool db (exists_route key) = responding existence (exists_handler key pool db)
  route call pool db (insert_route key v) =
      responding written (insert_handler key v 1 (call.instant ∷ call.instants) call.disk pool db)
  route call pool db (update_route key v) =
      responding written (update_handler key v 1 (call.instant ∷ call.instants) call.disk pool db)
  route call pool db (delete_route key) =
      responding value (delete_handler key 1 (call.instant ∷ call.instants) call.disk pool db)

  -- One request after another.
  unfoldable pub serve : List Call → Pool → Inner → Option (List Response × Pool × Inner)
  unfolding route
  serve [] pool db = some ([], pool, db)
  serve (call ∷ calls) pool db = elim (route call pool db call.request) [
    | none ↦ none
    | some (response, pool', db') ↦ elim (serve calls pool' db') [
      | none ↦ none
      | some (responses, pool'', db'') ↦ some (response ∷ responses, pool'', db'')
    ]
  ]
