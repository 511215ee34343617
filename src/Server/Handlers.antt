-- ===== src/Server/Handlers.antt =====
-- The five handlers: what each answers, and what later requests see.
use stupid_kv.Base.{
  ℕ, ◌+◌, ◌^◌, ◌<◌, ◌≡◌, refl, ap, ◌∙◌, Bool, true, false, Option, none, some, List, ◌∷◌, Bytes,
  bytes_ord, arith, eqb, if◌then◌else◌, length, ok, err, Crates,
}
use stupid_kv.Base.BTreeMap
use stupid_kv.Versions.{is_some}
use stupid_kv.Counters.{counter_tombstone}
use stupid_kv.Persistence.{Disk}
use stupid_kv.Persistence.Faults.{logging, fault, after}
use stupid_kv.Tx.Commit.Logged.{commit_told}
use stupid_kv.Db.{Inner}
use stupid_kv.Tx.{
  TransactionInner, key_already_exists, get, exists, put, set, fetch_in_datastore,
  exists_in_datastore, track,
}
use stupid_kv.Tx.Reads.{exists_in_datastore-fetch_in_datastore}
use stupid_kv.Tx.Commit.View.{view}
use stupid_kv.Pool.{Pool}
use stupid_kv.System.Snapshots.{fetch-frame}
use stupid_kv.System.Invariant.{Agree}
use stupid_kv.System.Calls.{Begun-Agree}
use stupid_kv.Server.{
  Reply, answer, get_handler, exists_handler, insert_handler, update_handler, delete_handler,
  deleting,
}
use stupid_kv.Server.Requests.{
  Starting, wrote, set-eq, del-eq, reading-Answers, refused-Answers, writing-Answers,
}
use stupid_kv.Server.Replies.{Answers}

module _ ⦃c : Crates⦄ (db : Inner) (handles : List TransactionInner) (v : Agree db handles)
    (few : length handles + 1 < counter_tombstone) (key : Bytes) where
  module _ (write : Bool) (tx : TransactionInner) (out : Inner)
      (b : Starting db handles v few write tx out) where
    -- A transaction that has just begun reads what the database shows.
    starting_view : fetch_in_datastore out key tx.version ≡ view db key
    unfolding view
    starting_view =
        fetch-frame db out key tx.version b.frame ∙ ap (fetch_in_datastore db key) b.version

    nothing_at : BTreeMap.get key tx.writeset ≡ none
    unfolding BTreeMap.get
    nothing_at = ap (BTreeMap.get key) b.nothing_written

    untracked : track tx key ≡ tx
    unfolding track
    untracked = ground (arith, b.mode)

    starting_get : get out tx key ≡ (ok (view db key), tx)
    unfolding get
    starting_get = ground (arith, b.active, b.writable, nothing_at, untracked, starting_view)

    starting_there : exists_in_datastore out key tx.version ≡ is_some (view db key)
    starting_there =
        exists_in_datastore-fetch_in_datastore out key tx.version ∙ ap is_some starting_view

    starting_exists : exists out tx key ≡ (ok (is_some (view db key)), tx)
    unfolding exists
    starting_exists = ground (arith, b.active, b.writable, nothing_at, untracked, starting_there)

  module _ (tx : TransactionInner) (out : Inner) (b : Starting db handles v few true tx out) where
    starting_put :
        (value : Bytes)
        → put out tx key value ≡ (
            if is_some (view db key)
            then (err key_already_exists, tx)
            else (ok tt, wrote tx key (some value)))
    unfolding put BTreeMap.insert
    starting_put value = ground (
      arith,
      b.active,
      b.writable,
      nothing_at true tx out b,
      starting_there true tx out b,
      ap (BTreeMap.insert key (some value)) b.nothing_written,
    )

  pub get_handler-Answers :
      (pool : Pool)
      → Answers
          (get_handler key pool db)
          (ok (view db key))
          handles
          (view db)
          (logging db.persistence)
  unfolding get_handler
  get_handler-Answers pool =
      reading-Answers db handles v few (λ d t. get d t key) (view db key) pool (starting_get false)

  pub exists_handler-Answers :
      (pool : Pool)
      → Answers
          (exists_handler key pool db)
          (ok (is_some (view db key)))
          handles
          (view db)
          (logging db.persistence)
  unfolding exists_handler
  exists_handler-Answers pool =
      reading-Answers db handles v few (λ d t. exists d t key) (is_some (view db key)) pool
        (starting_exists false)

  module _ (instant : ℕ) (instants : List ℕ) (disk : Disk) (pool : Pool) where
    pub insert_handler-refused :
        (value : Bytes)
        → is_some (view db key) ≡ true
        → Answers
            (insert_handler key value 1 (instant ∷ instants) disk pool db)
            (err key_already_exists)
            handles
            (view db)
            (logging db.persistence)
    unfolding insert_handler
    insert_handler-refused value there =
        refused-Answers db handles v few (λ d t. put d t key value) instant instants disk pool
          key_already_exists (λ tx out b. rw (starting_put tx out b value) (rw there refl))

    module _ (room : db.transaction_commit_id + 1 < 2 ^ 64)
        (ticks : db.oracle.timestamp + 1 < 2 ^ 64) where
      -- A request that writes: its commit takes effect, and it is answered what its log says.
      abbrev pub Written : {A : Type 0} → Reply A → A → Option Bytes → Type 0
      Written reply a value =
          Answers reply (answer a (commit_told (fault (logging db.persistence) disk))) handles
            (λ k. if eqb k key then value else view db k) (after (logging db.persistence) disk)

      pub insert_handler-Written :
          (value : Bytes)
          → is_some (view db key) ≡ false
          → Written (insert_handler key value 1 (instant ∷ instants) disk pool db) tt (some value)
      unfolding insert_handler
      insert_handler-Written value absent =
          writing-Answers db handles v few (λ d t. put d t key value) instant instants disk pool tt
            key (some value) room ticks
            (λ tx out b. rw (starting_put tx out b value) (rw absent refl))

      -- Where the database and the open handles agree, with room for one more handle, commit id
      -- and timestamp: an update request is answered, whatever the clock and the disk say; its
      -- commit is never refused for a conflict; every later request sees the new value at the key
      -- and what it saw before at every other key; the answer is the error of the log where that
      -- fails, by the modes and the disk, and else that it is done; and the database agrees with the same open handles again.
      pub update_handler-Answers :
          (value : Bytes)
          → Written (update_handler key value 1 (instant ∷ instants) disk pool db) tt (some value)
      unfolding update_handler
      update_handler-Answers value =
          writing-Answers db handles v few (λ d t. set t key value) instant instants disk pool tt
            key (some value) room ticks
            (λ tx out b.
              set-eq out handles tx (Begun-Agree db out true tx handles v few b) key b.active
                b.writable b.nothing_written value)

      pub delete_handler-Written :
          Written (delete_handler key 1 (instant ∷ instants) disk pool db) (view db key) none
      unfolding delete_handler
      delete_handler-Written =
          writing-Answers db handles v few (λ d t. deleting key (get d t key)) instant instants disk
            pool (view db key) key none room ticks
            (λ tx out b. rw (starting_get true tx out b) (
              rw
                (del-eq out handles tx (Begun-Agree db out true tx handles v few b) key b.active
                  b.writable b.nothing_written)
                refl))
