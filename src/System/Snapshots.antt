-- ===== src/System/Snapshots.antt =====
-- Snapshot isolation over whole runs: what an open handle reads does not change.
use stupid_kv.Base.{
  ℕ, ◌<◌, ◌≤◌, ◌≡◌, refl, sym, ap, subst, ◌∙◌, some, Option, List, [], ◌∷◌, inl, bytes_ord, nat_ord,
  arith, Crates, none, Bytes,
}
use stupid_kv.Counters.Holders.{Live, holders}
use stupid_kv.Db.{Inner, run_gc, run_cleanup, run_cleanup_inner}
use stupid_kv.Db.Collect.{stored-run_gc}
use stupid_kv.Tx.{TransactionInner, fetch_in_datastore, merging}
use stupid_kv.Tx.Reads.{fetch_in_datastore-stored}
use stupid_kv.Tx.Commit.View.{commit-snapshot}
use stupid_kv.Pool
use stupid_kv.Pool.Handles.{Dropped}
use stupid_kv.System.{System, Step, begins, operates, commits, drops, collects, cleans}
use stupid_kv.System.Handles.{by_version, lives, All, All-at, IsHandle}
use stupid_kv.System.Invariant.{Agree, IsConsistent, few_lives}
use stupid_kv.System.Calls.{begin-Begun, drop-lives}
use stupid_kv.System.Steps.{Step-IsConsistent}

module _ ⦃c : Crates⦄ where
  -- An open handle has the snapshot `q`.
  abbrev pub IsHeld : ℕ → System → Type 0
  IsHeld q s = 0 < holders q (lives by_version s.handles)

  -- A snapshot that a handle has lies in the past.
  pub held_past :
      (now last q : ℕ) (handles : List TransactionInner)
      → All (IsHandle now last) handles
      → 0 < holders q (lives by_version handles)
      → q ≤ now
  unfolding holders
  held_past now last q [] all h = absurd (omega arith)
  held_past now last q (tx ∷ txs) all h =
      ground (arith, all.0.snapshot, held_past now last q txs all.1)

  -- The counters play no part in a read.
  pub fetch-frame :
      (db out : Inner) (k : Bytes) (q : ℕ)
      → out ≡ record db {
        counter_by_oracle = out.counter_by_oracle;
        counter_by_commit = out.counter_by_commit;
      }
      → fetch_in_datastore out k q ≡ fetch_in_datastore db k q
  unfolding fetch_in_datastore merging
  fetch-frame db out k q e = ap (λ d. fetch_in_datastore d k q) e

  pub fetch-run_cleanup :
      (db : Inner) (k : Bytes) (q : ℕ)
      → fetch_in_datastore (run_cleanup db) k q ≡ fetch_in_datastore db k q
  unfolding fetch_in_datastore merging run_cleanup run_cleanup_inner
  fetch-run_cleanup db k q = refl

  pub Dropped-frame :
      (db : Inner) (a b : Live) (o : Option (Pool.Pool × Inner)) (pool : Pool.Pool) (out : Inner)
      → Dropped db a b o
      → o ≡ some (pool, out)
      → out ≡ record db {
        counter_by_oracle = out.counter_by_oracle;
        counter_by_commit = out.counter_by_commit;
      }
  Dropped-frame db a b none pool out h e = absurd h
  Dropped-frame db a b (some (p, found)) pool out (held_o, held_c, frame) e =
      let one : found ≡ out = ground (arith, e) in
      subst
        (λ (x : Inner). x ≡ record db {
          counter_by_oracle = x.counter_by_oracle;
          counter_by_commit = x.counter_by_commit;
        })
        one frame

  -- One call, whichever it is, changes no read at a snapshot that an open handle has.
  pub fetch_in_datastore-Step :
      (s t : System) (k : Bytes) (q : ℕ)
      → IsConsistent s
      → IsHeld q s
      → Step s t
      → fetch_in_datastore t.db k q ≡ fetch_in_datastore s.db k q
  fetch_in_datastore-Step s t k q v held (begins _ write tx pool db got few) =
      fetch-frame s.db db k q (begin-Begun s.pool pool s.db db write tx s.handles v few got).frame
  fetch_in_datastore-Step s t k q v held (operates _ l r tx tx' at op) = refl
  fetch_in_datastore-Step s t k q v held
        (commits _ l r tx tx' rounds instant instants disk result db at done room ticks) =
      let own = All-at (IsHandle s.db.oracle.timestamp s.db.transaction_commit_id) l r tx (
        subst (λ x. All (IsHandle s.db.oracle.timestamp s.db.transaction_commit_id) x) at v.each) in
      commit-snapshot disk s.db tx v.database own.ascending own.readset room ticks rounds instant
        instants (result, db, tx') done k q
        (held_past s.db.oracle.timestamp s.db.transaction_commit_id q s.handles v.each held)
  fetch_in_datastore-Step s t k q v held (drops _ l r tx pool db at dropped) =
      let w = subst (λ x. Agree s.db x) at v in
      fetch-frame s.db db k q
        (Dropped-frame s.db _ _ _ pool db (drop-lives l r tx s.db w s.pool) dropped)
  fetch_in_datastore-Step s t k q v held (collects _ instant) =
      let after = Step-IsConsistent s _ (collects s instant) v in
      fetch_in_datastore-stored (run_gc s.db instant) k q after.database.quiet
      ∙ (stored-run_gc s.db instant (lives by_version s.handles) k q v.database.bounded.store
          v.by_oracle (few_lives by_version s.handles v.few) (inl held)).0
      ∙ sym (fetch_in_datastore-stored s.db k q v.database.quiet)
  fetch_in_datastore-Step s t k q v held (cleans _) = fetch-run_cleanup s.db k q

  -- A run all through which some open handle has the snapshot `q`.
  pub data HeldRun (q : ℕ) : System → System → Type 0 where
    held_rests : (s : System) → HeldRun q s s
    held_steps : (s t u : System) → IsHeld q s → Step s t → HeldRun q t u → HeldRun q s u

  -- From a state where the database and the handles agree, and all through a run in which some open handle has the snapshot `q`:
  -- whatever other handles begin, write, commit and drop, and whatever is collected meanwhile, a
  -- read of any key at `q` finds at the end what it found at the start.
  pub fetch_in_datastore-HeldRun :
      (q : ℕ) (k : Bytes) (s t : System)
      → IsConsistent s
      → HeldRun q s t
      → fetch_in_datastore t.db k q ≡ fetch_in_datastore s.db k q
  fetch_in_datastore-HeldRun q k s t v (held_rests _) = refl
  fetch_in_datastore-HeldRun q k s t v (held_steps _ u _ held step run) =
      fetch_in_datastore-HeldRun q k u t (Step-IsConsistent s u step v) run
      ∙ fetch_in_datastore-Step s u k q v held step
