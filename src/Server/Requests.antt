-- ===== src/Server/Requests.antt =====
-- A request that reads, one that is refused, and one that writes a key, whatever the handler.
use stupid_kv.Base.{
  ℕ, ◌+◌, ◌^◌, ◌<◌, ◌≡◌, refl, sym, ap, subst, ◌∙◌, true, false, Option, none, some, List, [], ◌∷◌,
  Bytes, bytes_ord, nat_ord, arith, eqb, if◌then◌else◌, length, Result, ok, err, Bool, Crates,
}
use stupid_kv.Base.BTreeMap
use stupid_kv.Counters.{counter_tombstone}
use stupid_kv.Persistence.{Disk}
use stupid_kv.Persistence.Faults.{logging, fault, after}
use stupid_kv.Tx.Commit.Logged.{commit_told}
use stupid_kv.Db.{Inner}
use stupid_kv.Tx.{TransactionInner, Error, set, del}
use stupid_kv.Tx.Begin.{Begun}
use stupid_kv.Tx.Commit.View.{view}
use stupid_kv.Tx.Commit.Store.{overlay}
use stupid_kv.Pool.{Pool}
use stupid_kv.Pool
use stupid_kv.Pool.Handles.{Got, get-Begun}
use stupid_kv.System.Handles.{by_version, by_commit, lives}
use stupid_kv.System.{Operation, sets, dels}
use stupid_kv.System.Operations.{Operation-Handled}
use stupid_kv.System.Invariant.{Agree, replaced-Agree, same-Frame, few_lives}
use stupid_kv.System.Calls.{own-IsHandle, Begun-Agree}
use stupid_kv.Server.{api_result, reading, writing, committing, dropping, answer}
use stupid_kv.Server.Replies.{view-frame, Answers, dropping-Answers, committing-Answers}

module _ ⦃c : Crates⦄ where
  -- A transaction with one write, which is a deletion where there is no value.
  abbrev pub wrote : TransactionInner → Bytes → Option Bytes → TransactionInner
  wrote tx key v = record tx { writeset = (key, v) ∷ [] }

  module _ (db : Inner) (handles : List TransactionInner) (tx : TransactionInner)
      (v : Agree db (tx ∷ handles)) (key : Bytes) (active : tx.done ≡ false)
      (writable : tx.write ≡ true) (nothing : tx.writeset ≡ []) where
    pub set-eq : (value : Bytes) → set tx key value ≡ (ok tt, wrote tx key (some value))
    unfolding set BTreeMap.insert
    set-eq value =
        ground
          (arith, active, writable, nothing, ap (λ w. BTreeMap.insert key (some value) w) nothing)

    pub del-eq : del tx key ≡ (ok tt, wrote tx key none)
    unfolding del BTreeMap.insert
    del-eq = ground (arith, active, writable, nothing, ap (λ w. BTreeMap.insert key none w) nothing)

    operated-Agree : (tx' : TransactionInner) → Operation db tx tx' → Agree db (tx' ∷ handles)
    operated-Agree tx' op =
        replaced-Agree [] handles tx tx' db db v v.database (same-Frame db) (omega arith)
          (omega arith)
          (Operation-Handled db.oracle.timestamp db.transaction_commit_id tx
            (own-IsHandle [] handles tx db v) db tx' op)

    wrote-Agree : (value : Option Bytes) → Agree db (wrote tx key value ∷ handles)
    wrote-Agree (some value) =
        subst (λ (x : Result Error (Unit {0}) × TransactionInner). Agree db (x.1 ∷ handles))
          (set-eq value) (operated-Agree (set tx key value).1 (sets key value))
    wrote-Agree none =
        subst (λ (x : Result Error (Unit {0}) × TransactionInner). Agree db (x.1 ∷ handles)) del-eq
          (operated-Agree (del tx key).1 (dels key))

  one_key :
      (k key : Bytes) (value old : Option Bytes)
      → overlay ((key, value) ∷ []) k old ≡ (if eqb k key then value else old)
  unfolding BTreeMap.get
  one_key k key value old = ground arith

  module _ (db : Inner) (handles : List TransactionInner) (v : Agree db handles)
      (few : length handles + 1 < counter_tombstone) where
    -- A transaction that has begun in `out`.
    abbrev pub Starting : Bool → TransactionInner → Inner → Type 0
    Starting write tx out =
        Begun db write (lives by_version handles) (lives by_commit handles) tx out

    got :
        (write : Bool) (pool : Pool)
        → (tx : TransactionInner) × (pool' : Pool) × (out : Inner) × (Pool.get pool db write
            ≡ some (tx, pool', out))
          × Starting write tx out
    got write pool = taken (Pool.get pool db write) refl (
        get-Begun db write (lives by_version handles) (lives by_commit handles) v.by_oracle
          v.by_starts (few_lives by_version handles v.few) (few_lives by_commit handles v.few)
          v.floor pool)
      where
        taken :
            (o : Option (TransactionInner × Pool × Inner))
            → Pool.get pool db write ≡ o
            → Got db write (lives by_version handles) (lives by_commit handles) o
            → (tx : TransactionInner) × (pool' : Pool) × (out : Inner) × (Pool.get pool db write
                ≡ some (tx, pool', out))
              × Starting write tx out
        taken none e h = absurd h
        taken (some (tx, pool', out)) e b = (tx, pool', out, e, b)

    -- What a request that ends without a commit answers.
    ended-Answers :
        {A : Type 0} (write : Bool) (result : Result Error A) (tx : TransactionInner) (out : Inner)
        (pool : Pool)
        → Starting write tx out
        → Answers (dropping result pool out tx) result handles (view db) (logging db.persistence)
    ended-Answers write result tx out pool b =
        let (pool', closed, replied, agreed, sees, log) =
          dropping-Answers out handles tx (Begun-Agree db out write tx handles v few b) result
            pool in
        (
          pool',
          closed,
          replied,
          agreed,
          λ k. sees k ∙ view-frame db out k b.frame,
          log ∙ ap (λ (d : Inner). logging d.persistence) b.frame,
        )

    module _ {A : Type 0}
        (action : Inner → TransactionInner → Result Error A × TransactionInner) where
      -- A request that reads, whose action leaves its transaction as it is.
      pub reading-Answers :
          (a : A) (pool : Pool)
          → ((tx : TransactionInner) (out : Inner)
              → Starting false tx out
              → action out tx ≡ (ok a, tx))
          → Answers (reading action pool db) (ok a) handles (view db) (logging db.persistence)
      unfolding reading
      reading-Answers a pool does =
          let (tx, pool', out, e, b) = got false pool in
          rw (e, reading) (rw (does tx out b) (ended-Answers false (ok a) tx out pool' b))

      module _ (instant : ℕ) (instants : List ℕ) (disk : Disk) (pool : Pool) where
        -- A request whose action fails and leaves its transaction as it is.
        pub refused-Answers :
            (e : Error)
            → ((tx : TransactionInner) (out : Inner)
                → Starting true tx out
                → action out tx ≡ (err e, tx))
            → Answers
                (writing action 1 (instant ∷ instants) disk pool db)
                (err e)
                handles
                (view db)
                (logging db.persistence)
        unfolding writing committing
        refused-Answers e does =
            let (tx, pool', out, at, b) = got true pool in
            rw (at, writing) (rw (does tx out b) (ended-Answers true (err e) tx out pool' b))

        -- A request whose action writes one key.
        pub writing-Answers :
            (a : A) (key : Bytes) (value : Option Bytes)
            → db.transaction_commit_id + 1 < 2 ^ 64
            → db.oracle.timestamp + 1 < 2 ^ 64
            → ((tx : TransactionInner) (out : Inner)
                → Starting true tx out
                → action out tx ≡ (ok a, wrote tx key value))
            → Answers
                (writing action 1 (instant ∷ instants) disk pool db)
                (answer a (commit_told (fault (logging db.persistence) disk)))
                handles
                (λ k. if eqb k key then value else view db k)
                (after (logging db.persistence) disk)
        unfolding writing
        writing-Answers a key value room ticks does =
            let (tx, pool', out, at, b) = got true pool in
            let begun = Begun-Agree db out true tx handles v few b in
            let clock = ap (λ (d : Inner). d.oracle.timestamp) b.frame in
            let starts = ap (λ (d : Inner). d.transaction_commit_id) b.frame in
            let same = ap (λ (d : Inner). logging d.persistence) b.frame in
            let (pool2, out2, replied, closed, sees, log) =
              committing-Answers out handles (wrote tx key value)
                (wrote-Agree out handles tx begun key b.active b.writable b.nothing_written value)
                (b.commit ∙ sym starts) b.active (λ f. cc f) a instant instants disk pool'
                (rw starts room) (rw clock ticks) in
            (
              pool2,
              out2,
              rw (at, writing)
                  (rw (does tx out b) (
                    replied
                    ∙ ap
                        (λ g.
                          some (api_result (answer a (commit_told (fault g disk))), pool2, out2))
                        same)),
              closed,
              λ k. sees k ∙ rw (view-frame db out k b.frame) (one_key k key value (view db k)),
              log ∙ ap (λ g. after g disk) same,
            )
