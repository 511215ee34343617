-- ===== src/Tx/Commit/Conflict.antt =====
-- The comparison of a commit with the commits since its transaction began.
use mathlib.Core.Path.{fun_ext}
use stupid_kv.Base.{
  ℕ, ◌≤◌, ◌<◌, ◌≡◌, refl, sym, subst, ◌∙◌, true, ◌&&◌, Option, none, some, [], ◌∷◌, nat_ord,
  bytes_ord, arith, eqb, eqb_iff, eqb_refl, leb, ltb, if◌then◌else◌, any, add_u64, Crates,
  Option-cases, Bool-cases, inl, inr,
}
use stupid_kv.Base.BTreeMap.{BTreeMap, keys, IsAscending, Above, Above-get}
use stupid_kv.Base.BTreeMap
use stupid_kv.Base.SkipMap
use stupid_kv.Queue.{Commit}
use stupid_kv.Queue.Keys.{overlap}
use stupid_kv.Queue.Disjoint.{
  IsCommit, IsReadset, is_disjoint_writeset_bloom-eq, is_disjoint_readset_bloom-eq,
}
use stupid_kv.Db.{Inner}
use stupid_kv.Tx.{
  TransactionInner, Error, key_write_conflict, key_read_conflict, is_serializable, at_least,
  IsolationLevel, snapshot_isolation, serializable_snapshot_isolation,
}
use stupid_kv.Tx.Commit.{entry_conflict, range_conflict, find_conflict}

module _ ⦃c : Crates⦄ where
  -- What a transaction with the entry shares with an earlier commit: a written key, or a key that
  -- it read under serializable isolation.
  abbrev pub shared : TransactionInner → Commit → Commit → Option Error
  shared tx entry t =
      if overlap (keys t.writeset) (keys entry.writeset)
      then some key_write_conflict
      else if is_serializable tx.mode && any (c.contains tx.readset) (keys t.writeset)
      then some key_read_conflict
      else none

  pub entry_conflict-eq :
      (tx : TransactionInner) (entry t : Commit)
      → IsCommit entry
      → IsCommit t
      → IsReadset tx.readset tx.readset_bloom
      → entry_conflict tx entry t ≡ shared tx entry t
  unfolding entry_conflict
  entry_conflict-eq tx entry t v w r =
      rw
        (
          (is_disjoint_writeset_bloom-eq t entry w v).0,
          is_disjoint_readset_bloom-eq t tx.readset tx.readset_bloom r,
        )
        (ground arith)

  -- An entry between the transaction's start and its own commit.
  abbrev pub Hit : ℕ → ℕ → (ℕ → Option Commit) → ℕ → Commit → Type 0
  Hit start version look v t = (look v ≡ some t) × (start ≤ v) × (v < version)

  abbrev pub Verdict :
      TransactionInner → Commit → ℕ → ℕ → (ℕ → Option Commit) → Option Error → Type 0
  Verdict tx entry start version look none =
      (v : ℕ) (t : Commit) → Hit start version look v t → shared tx entry t ≡ none
  Verdict tx entry start version look (some e) =
      (v : ℕ) × (t : Commit) × Hit start version look v t × (shared tx entry t ≡ some e)

  always : (mode : IsolationLevel) → at_least mode snapshot_isolation ≡ true
  always snapshot_isolation = refl
  always serializable_snapshot_isolation = refl

  module _ (tx : TransactionInner) (entry : Commit) (version : ℕ) (sound : IsCommit entry)
      (readset : IsReadset tx.readset tx.readset_bloom) where
    abbrev start : ℕ
    start = add_u64 tx.commit 1

    abbrev entries : BTreeMap ℕ Commit → ℕ → Option Commit
    entries es v = BTreeMap.get v es

    -- Verdicts on a longer list.
    wider :
        (w : ℕ) (u : Commit) (es : BTreeMap ℕ Commit) (v : ℕ) (t : Commit)
        → Above w es
        → BTreeMap.get v es ≡ some t
        → BTreeMap.get v ((w, u) ∷ es) ≡ some t
    unfolding BTreeMap.get
    wider w u es v t a h = ground (arith, Above-get w v es t a h)

    get_head : (w : ℕ) (u : Commit) (es : BTreeMap ℕ Commit) → BTreeMap.get w ((w, u) ∷ es) ≡ some u
    unfolding BTreeMap.get
    get_head w u es = rw (eqb_refl w) refl

    head_IsCommit :
        (w : ℕ) (u : Commit) (es : BTreeMap ℕ Commit)
        → ((v : ℕ) (t : Commit) → BTreeMap.get v ((w, u) ∷ es) ≡ some t → IsCommit t)
        → IsCommit u
    head_IsCommit w u es all = all w u (get_head w u es)

    at_head :
        (w : ℕ) (u : Commit) (es : BTreeMap ℕ Commit) (v : ℕ) (t : Commit)
        → eqb v w ≡ true
        → BTreeMap.get v ((w, u) ∷ es) ≡ some t
        → u ≡ t
    unfolding BTreeMap.get
    at_head w u es v t here h = ground (arith, here, h)

    skip :
        (w : ℕ) (u : Commit) (es : BTreeMap ℕ Commit) (o : Option Error)
        → Above w es
        → (start ≤ w → w < version → shared tx entry u ≡ none)
        → Verdict tx entry start version (entries es) o
        → Verdict tx entry start version (entries ((w, u) ∷ es)) o
    unfolding BTreeMap.get
    skip w u es none a free all = λ v t h. elim (Bool-cases (eqb v w)) [
      | inl here ↦
          subst (λ (x : Commit). shared tx entry x ≡ none) (at_head w u es v t here h.0)
            (free (subst (λ (x : ℕ). start ≤ x) ((eqb_iff v w).0 here) h.1)
              (subst (λ (x : ℕ). x < version) ((eqb_iff v w).0 here) h.2))
      | inr other ↦ all v t (ground (arith, other, h.0), h.1, h.2)
    ]
    skip w u es (some e) a free (v, t, (at, from, below), same) =
        (v, t, (wider w u es v t a at, from, below), same)

    range_conflict-Verdict :
        (es : BTreeMap ℕ Commit)
        → IsAscending es
        → ((v : ℕ) (t : Commit) → BTreeMap.get v es ≡ some t → IsCommit t)
        → Verdict tx entry start version (entries es) (range_conflict tx entry version es)
    unfolding range_conflict BTreeMap.get
    range_conflict-Verdict [] s all = λ v t h. absurd cc
    range_conflict-Verdict ((w, u) ∷ es) s all =
        let rest = range_conflict-Verdict es s.1 (λ v t h. all v t (wider w u es v t s.0 h)) in
        elim (Bool-cases (leb start w && ltb w version)) [
          | inl inside ↦ rw inside (elim (Option-cases (entry_conflict tx entry u)) [
            | inl free ↦ rw free (
                skip w u es _ s.0
                  (λ _ _.
                    sym (entry_conflict-eq tx entry u sound (head_IsCommit w u es all) readset)
                    ∙ free)
                  rest)
            | inr (e, clash) ↦ rw clash (
              w,
              u,
              (get_head w u es, ground arith, ground arith),
              sym (entry_conflict-eq tx entry u sound (head_IsCommit w u es all) readset) ∙ clash,
            )
          ])
          | inr outside ↦ rw outside (skip w u es _ s.0 (λ from below. absurd (ground arith)) rest)
        ]

    -- For a sound entry, a sound read filter and sound queue entries: `find_conflict` returns no
    -- error only where no queued commit between the transaction's start and its own place writes
    -- a key that the transaction wrote or, under serializable isolation, read; and an error that
    -- it returns is that of such a commit, the write conflict where a written key is shared.
    pub find_conflict-Verdict :
        (db : Inner)
        → ((v : ℕ) (t : Commit) → SkipMap.get db.transaction_commit_queue v ≡ some t → IsCommit t)
        → Verdict tx entry start version
            (SkipMap.get db.transaction_commit_queue)
            (find_conflict tx entry version db)
    unfolding find_conflict
    find_conflict-Verdict db all =
        let queue = db.transaction_commit_queue in
        let walk =
          range_conflict-Verdict (SkipMap.iter queue) (SkipMap.iter-IsAscending queue)
            (λ v t h. all v t (sym (SkipMap.get-iter queue v) ∙ h)) in
        rw (always tx.mode) (
          subst
            (λ (look : ℕ → Option Commit).
              Verdict tx entry start version look
                (range_conflict tx entry version (SkipMap.iter queue)))
            (fun_ext (SkipMap.get-iter queue)) walk)
