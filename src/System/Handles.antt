-- ===== src/System/Handles.antt =====
-- The open handles as a list: what holds of each, and the counts that do not depend on their order.
use stupid_kv.Base.{
  ℕ, suc, ◌≤◌, ◌<◌, ◌≡◌, refl, sym, ap, ◌∙◌, subst, List, [], ◌∷◌, ◌++◌, arith, length, nat_ord,
  bytes_ord, Crates,
}
use stupid_kv.Base.BTreeMap.{IsAscending}
use stupid_kv.Bloom.Contains.{IsFilter}
use stupid_kv.Queue.Disjoint.{IsReadset}
use stupid_kv.Counters.{Counters}
use stupid_kv.Counters.Holders.{Live, holders, AllHeld, IsCount}
use stupid_kv.Counters.Earliest.{AtLeast}
use stupid_kv.Tx.{TransactionInner}

IsCount-cong :
    ⦃c : Crates⦄ (cs : Counters) (a b : Live)
    → ((v : ℕ) → holders v a ≡ holders v b)
    → (AllHeld cs a → AllHeld cs b)
    → IsCount cs a
    → IsCount cs b
IsCount-cong cs a b same held inv = record {
  held = held inv.held;
  there = inv.there;
  counted = λ v r e. inv.counted v r e ∙ same v;
  positive = λ v r e. subst (λ (n : ℕ). 0 < n) (same v) (inv.positive v r e);
  own = inv.own;
}

module _ ⦃c : Crates⦄ where
  -- The snapshot of a handle with its counter, and its start with its counter.
  abbrev pub by_version : TransactionInner → ℕ × ℕ
  by_version tx = (tx.version, tx.counter_version)

  abbrev pub by_commit : TransactionInner → ℕ × ℕ
  by_commit tx = (tx.commit, tx.counter_commit)

  abbrev pub lives : (TransactionInner → ℕ × ℕ) → List TransactionInner → Live
  lives g [] = []
  lives g (tx ∷ txs) = g tx ∷ lives g txs

  module _ (g : TransactionInner → ℕ × ℕ) (tx : TransactionInner) (r : List TransactionInner) where
    holders_middle :
        (v : ℕ) (l : List TransactionInner)
        → holders v (lives g (l ++ tx ∷ r)) ≡ holders v (g tx ∷ lives g (l ++ r))
    unfolding holders
    holders_middle v [] = refl
    holders_middle v (x ∷ l) = ground (arith, holders_middle v l)

    AllHeld-middle :
        (cs : Counters) (l : List TransactionInner)
        → AllHeld cs (lives g (l ++ tx ∷ r))
        → AllHeld cs (g tx ∷ lives g (l ++ r))
    AllHeld-middle cs [] h = h
    AllHeld-middle cs (x ∷ l) h = let rest = AllHeld-middle cs l h.1 in (rest.0, (h.0, rest.1))

    AllHeld-back :
        (cs : Counters) (l : List TransactionInner)
        → AllHeld cs (g tx ∷ lives g (l ++ r))
        → AllHeld cs (lives g (l ++ tx ∷ r))
    AllHeld-back cs [] h = h
    AllHeld-back cs (x ∷ l) h = (h.1.0, AllHeld-back cs l (h.0, h.1.1))

    -- A handle in the middle counts as one at the front.
    pub IsCount-front :
        (cs : Counters) (l : List TransactionInner)
        → IsCount cs (lives g (l ++ tx ∷ r))
        → IsCount cs (g tx ∷ lives g (l ++ r))
    IsCount-front cs l = IsCount-cong cs _ _ (λ v. holders_middle v l) (AllHeld-middle cs l)

    pub IsCount-back :
        (cs : Counters) (l : List TransactionInner)
        → IsCount cs (g tx ∷ lives g (l ++ r))
        → IsCount cs (lives g (l ++ tx ∷ r))
    IsCount-back cs l = IsCount-cong cs _ _ (λ v. sym (holders_middle v l)) (AllHeld-back cs l)

  pub length-lives :
      (g : TransactionInner → ℕ × ℕ) (l : List TransactionInner) → length (lives g l) ≡ length l
  length-lives g [] = refl
  length-lives g (x ∷ l) = ap suc (length-lives g l)

  pub length_middle :
      (l r : List TransactionInner) (x : TransactionInner)
      → length (l ++ x ∷ r) ≡ suc (length (l ++ r))
  length_middle [] r x = refl
  length_middle (y ∷ l) r x = ap suc (length_middle l r x)

  -- What holds of a handle: its write set and its read set are sound, and its snapshot and its
  -- start lie in the past.
  pub record IsHandle (now last : ℕ) (tx : TransactionInner) : Type 0 where
    pub ascending : IsAscending tx.writeset
    pub filter : IsFilter tx.readset_bloom
    pub readset : IsReadset tx.readset tx.readset_bloom
    pub snapshot : tx.version ≤ now
    pub start : tx.commit ≤ last

  -- A predicate of every handle.
  abbrev pub All : (TransactionInner → Type 0) → List TransactionInner → Type 0
  All P [] = Unit {0}
  All P (tx ∷ txs) = P tx × All P txs

  module _ (P : TransactionInner → Type 0) where
    pub All-at : (l r : List TransactionInner) (tx : TransactionInner) → All P (l ++ tx ∷ r) → P tx
    All-at [] r tx h = h.0
    All-at (x ∷ l) r tx h = All-at l r tx h.1

    pub All-replace :
        (l r : List TransactionInner) (tx tx' : TransactionInner)
        → P tx'
        → All P (l ++ tx ∷ r)
        → All P (l ++ tx' ∷ r)
    All-replace [] r tx tx' p h = (p, h.1)
    All-replace (x ∷ l) r tx tx' p h = (h.0, All-replace l r tx tx' p h.1)

    pub All-remove :
        (l r : List TransactionInner) (tx : TransactionInner) → All P (l ++ tx ∷ r) → All P (l ++ r)
    All-remove [] r tx h = h.1
    All-remove (x ∷ l) r tx h = (h.0, All-remove l r tx h.1)

  pub All-map :
      (P Q : TransactionInner → Type 0) (l : List TransactionInner)
      → ((tx : TransactionInner) → P tx → Q tx)
      → All P l
      → All Q l
  All-map P Q [] f h = tt
  All-map P Q (x ∷ l) f h = (f x h.0, All-map P Q l f h.1)

  pub IsHandle-later :
      (now last now' last' : ℕ) (tx : TransactionInner)
      → now ≤ now'
      → last ≤ last'
      → IsHandle now last tx
      → IsHandle now' last' tx
  IsHandle-later now last now' last' tx h i v = record {
    ascending = v.ascending;
    filter = v.filter;
    readset = v.readset;
    snapshot = omega (arith, v.snapshot);
    start = omega (arith, v.start);
  }

  pub All-zip :
      (P Q : TransactionInner → Type 0) (l : List TransactionInner)
      → All P l
      → All Q l
      → All (λ tx. P tx × Q tx) l
  All-zip P Q [] p q = tt
  All-zip P Q (x ∷ l) p q = ((p.0, q.0), All-zip P Q l p.1 q.1)

  -- Each handle holds its snapshot.
  pub All-holders :
      (l : List TransactionInner) → All (λ tx. 0 < holders tx.version (lives by_version l)) l
  unfolding holders
  All-holders [] = tt
  All-holders (x ∷ l) = (
    ground arith,
    All-map _ _ l
        (λ (tx : TransactionInner) (h : 0 < holders tx.version (lives by_version l)). ground arith)
        (All-holders l),
  )

  -- A bound of all starts bounds each.
  pub All-AtLeast :
      (b : ℕ) (l : List TransactionInner)
      → AtLeast b (lives by_commit l)
      → All (λ tx. b ≤ tx.commit) l
  All-AtLeast b [] h = tt
  All-AtLeast b (x ∷ l) h = (h.0, All-AtLeast b l h.1)
