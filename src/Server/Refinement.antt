-- ===== src/Server/Refinement.antt =====
-- The server as a map of keys to values: requests one after another.
use mathlib.Core.Path.{fun_ext}
use stupid_kv.Base.{
  ◌+◌, ◌^◌, ◌<◌, ◌≡◌, refl, sym, ap, ◌∙◌, inl, inr, Option, none, some, List, [], ◌∷◌, Bytes,
  bytes_ord, eqb, if◌then◌else◌, length, Result, ok, err, Bool-cases, Crates,
}
use stupid_kv.Versions.{is_some}
use stupid_kv.Counters.{counter_tombstone}
use stupid_kv.Persistence.{PersistenceError, Disk}
use stupid_kv.Persistence.Faults.{Logging, logging, fault, after}
use stupid_kv.Db.{Inner}
use stupid_kv.Tx.{TransactionInner, Error, key_already_exists, tx_commit_not_persisted}
use stupid_kv.Tx.Commit.View.{view}
use stupid_kv.Tx.Commit.Logged.{commit_told}
use stupid_kv.Pool.{Pool}
use stupid_kv.System.Invariant.{Agree}
use stupid_kv.Server.{
  ApiResult, api_result, Reply, answer, Request, get_route, exists_route, insert_route,
  update_route, delete_route, Response, value, existence, written, Call, Handled, responding, route,
  serve, conflict, internal_server_error, map_kv_error,
}
use stupid_kv.Server.Replies.{Answers}
use stupid_kv.Server.Handlers.{
  get_handler-Answers, exists_handler-Answers, insert_handler-refused, insert_handler-Written,
  update_handler-Answers, delete_handler-Written,
}

abbrev pub Contents : Type 0
Contents = Bytes → Option Bytes

abbrev pub put_at : Bytes → Option Bytes → Contents → Contents
put_at key v m k = if eqb k key then v else m k

-- An answer, or the error of the log that could not be written, which is an internal error.
abbrev pub outcome : {A : Type 0} → A → Option PersistenceError → ApiResult A
outcome a none = ok a
outcome a (some e) = err (internal_server_error, tx_commit_not_persisted e)

-- What a map answers to a request on a disk, and the map and the logging afterwards. Where the log of
-- a write fails, by the modes and the disk, the answer is that error, and the write stays.
abbrev pub specified : Request → Disk → Contents → Logging → Response × Contents × Logging
specified (get_route key) disk m log = (value (ok (m key)), m, log)
specified (exists_route key) disk m log = (existence (ok (is_some (m key))), m, log)
specified (insert_route key v) disk m log =
    if is_some (m key)
    then (written (err (conflict, key_already_exists)), m, log)
    else (written (outcome tt (fault log disk)), put_at key (some v) m, after log disk)
specified (update_route key v) disk m log =
    (written (outcome tt (fault log disk)), put_at key (some v) m, after log disk)
specified (delete_route key) disk m log =
    (value (outcome (m key) (fault log disk)), put_at key none m, after log disk)

-- The responses of a map, one request after another.
abbrev pub responses_of : List Call → Contents → Logging → List Response
responses_of [] m log = []
responses_of (call ∷ calls) m log =
    (specified call.request call.disk m log).0
    ∷ responses_of calls (specified call.request call.disk m log).1
        (specified call.request call.disk m log).2

module _ ⦃c : Crates⦄ where
  -- Room below 2^64 for a commit id and a timestamp at each request.
  abbrev pub HasRoom : List Call → Pool → Inner → Type 0
  HasRoom [] pool db = Unit {0}
  HasRoom (call ∷ calls) pool db =
      (db.transaction_commit_id + 1 < 2 ^ 64)
      × (db.oracle.timestamp + 1 < 2 ^ 64)
      × (elim (route call pool db call.request) [
        | none ↦ Unit {0}
        | some (response, pool', db') ↦ HasRoom calls pool' db'
      ])

  -- The answer of a handler whose commit took effect.
  answered_told :
      {A : Type 0} (a : A) (e : Option PersistenceError)
      → api_result (answer a (commit_told e)) ≡ outcome a e
  unfolding map_kv_error
  answered_told a none = refl
  answered_told a (some e) = refl

  module _ (db : Inner) (handles : List TransactionInner) where
    abbrev log : Logging
    log = logging db.persistence

    abbrev Meets : Handled → Request → Disk → Type 0
    Meets handled request disk =
        (response : Response) × (pool : Pool) × (out : Inner) × (handled
          ≡ some (response, pool, out))
        × Agree out handles
        × ((response, view out, logging out.persistence) ≡ specified request disk (view db) log)

    answered :
        {A : Type 0} (response : ApiResult A → Response) (reply : Reply A) (result : Result Error A)
        (request : Request) (disk : Disk) (sees : Contents) (next : Logging)
        → specified request disk (view db) log ≡ (response (api_result result), sees, next)
        → Answers reply result handles sees next
        → Meets (responding response reply) request disk
    unfolding responding
    answered response reply result request disk sees next same
          (pool, out, replied, agreed, seen, logs) =
        (
          response (api_result result),
          pool,
          out,
          rw (replied, responding) refl,
          agreed,
          ap (λ (m : Contents). (response (api_result result), m, logging out.persistence))
                (fun_ext seen)
              ∙ ap (λ (l : Logging). (response (api_result result), sees, l)) logs
              ∙ sym same,
        )

    wrote :
        {A : Type 0} (response : ApiResult A → Response) (reply : Reply A) (a : A)
        (request : Request) (disk : Disk) (sees : Contents)
        → specified request disk (view db) log
          ≡ (response (outcome a (fault log disk)), sees, after log disk)
        → Answers reply (answer a (commit_told (fault log disk))) handles sees (after log disk)
        → Meets (responding response reply) request disk
    wrote response reply a request disk sees same answers =
        answered response reply (answer a (commit_told (fault log disk))) request disk sees
          (after log disk)
          (same
            ∙ ap (λ x. (response x, sees, after log disk)) (sym (answered_told a (fault log disk))))
          answers

    module _ (v : Agree db handles) (few : length handles + 1 < counter_tombstone) (call : Call)
        (pool : Pool) (room : db.transaction_commit_id + 1 < 2 ^ 64)
        (ticks : db.oracle.timestamp + 1 < 2 ^ 64) where
      inserted-Meets :
          (key v' : Bytes)
          → Meets (route call pool db (insert_route key v')) (insert_route key v') call.disk
      unfolding route map_kv_error
      inserted-Meets key v' = elim (Bool-cases (is_some (view db key))) [
        | inl there ↦
            answered written _ (err key_already_exists) (insert_route key v') call.disk (view db)
              log (rw there refl)
              (insert_handler-refused db handles v few key call.instant call.instants call.disk pool
                v' there)
        | inr absent ↦
            wrote written _ tt (insert_route key v') call.disk (put_at key (some v') (view db))
              (rw absent refl)
              (insert_handler-Written db handles v few key call.instant call.instants call.disk pool
                room ticks v' absent)
      ]

      route-Meets : (request : Request) → Meets (route call pool db request) request call.disk
      unfolding route
      route-Meets (get_route key) =
          answered value _ (ok (view db key)) (get_route key) call.disk (view db) log refl
            (get_handler-Answers db handles v few key pool)
      route-Meets (exists_route key) =
          answered existence _ (ok (is_some (view db key))) (exists_route key) call.disk (view db)
            log refl (exists_handler-Answers db handles v few key pool)
      route-Meets (insert_route key v') = inserted-Meets key v'
      route-Meets (update_route key v') =
          wrote written _ tt (update_route key v') call.disk (put_at key (some v') (view db)) refl (
            update_handler-Answers db handles v few key call.instant call.instants call.disk pool
              room ticks v')
      route-Meets (delete_route key) =
          wrote value _ (view db key) (delete_route key) call.disk (put_at key none (view db)) refl
            (delete_handler-Written db handles v few key call.instant call.instants call.disk pool
              room ticks)

  -- The server refines a map of keys to values: from a database that agrees with its open handles,
  -- with room for one more handle, and for a commit id and a timestamp at each request, every
  -- sequence of requests is answered, and the responses are exactly those that the map gives which
  -- the database showed at the start: `get` and `exists` look in it, `insert` is a conflict where
  -- the key is there, and a write changes it at its key alone. A write answers an internal error
  -- exactly where its log fails, and changes the map all the same; the log fails where the log is
  -- written at each commit and the disk refuses the lock, the writing, or a synchronisation that
  -- the mode asks for at this time.
  pub serve-Follows :
      (calls : List Call) (pool : Pool) (db : Inner) (handles : List TransactionInner)
      → Agree db handles
      → length handles + 1 < counter_tombstone
      → HasRoom calls pool db
      → (pool' : Pool) × (out : Inner) × (serve calls pool db
          ≡ some (responses_of calls (view db) (logging db.persistence), pool', out))
        × Agree out handles
  unfolding serve
  serve-Follows [] pool db handles v few room = (pool, db, refl, v)
  serve-Follows (call ∷ calls) pool db handles v few room =
      let (response, pool', out, replied, agreed, is) =
        route-Meets db handles v few call pool room.0 room.1 call.request in
      let (pool'', last, served, closed) =
        serve-Follows calls pool' out handles agreed few (rw replied at room.2) in
      (
        pool'',
        last,
        rw (replied, serve)
            (rw served (
              ap
                (λ (x : Response × Contents × Logging).
                  some (x.0 ∷ responses_of calls x.1 x.2, pool'', last))
                is)),
        closed,
      )
