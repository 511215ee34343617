-- ===== src/Persistence/Entries.antt =====
-- Entries of a log: the keys that they write, and the order of their versions.
use stupid_kv.Base.{
  ℕ, ◌≤◌, ◌≡◌, refl, sym, ap, ◌∙◌, true, false, List, [], ◌∷◌, ◌++◌, Bytes, bytes_ord, nat_ord,
  arith, eqb, append_assoc, Crates,
}
use stupid_kv.Queue.{Writeset}
use stupid_kv.Persistence.{LogEntry, log_entries}
use stupid_kv.Persistence.Replay.{Commits, log_of, IsLog, last_version}

-- No entry writes the key; each that writes it is at most `v`; the versions do not fall, between
-- two bounds.
abbrev pub Misses : Bytes → List LogEntry → Type 0
Misses j [] = Unit {0}
Misses j ((k, n, y) ∷ es) = (eqb j k ≡ false) × Misses j es

abbrev pub WritesBelow : Bytes → ℕ → List LogEntry → Type 0
WritesBelow j v [] = Unit {0}
WritesBelow j v ((k, n, y) ∷ es) = (eqb j k ≡ true → n ≤ v) × WritesBelow j v es

abbrev pub IsRising : ℕ → ℕ → List LogEntry → Type 0
IsRising b t [] = b ≤ t
IsRising b t ((k, n, y) ∷ es) = (b ≤ n) × IsRising n t es

pub Misses-WritesBelow : (j : Bytes) (v : ℕ) (es : List LogEntry) → Misses j es → WritesBelow j v es
Misses-WritesBelow j v [] m = tt
Misses-WritesBelow j v ((k, n, y) ∷ es) m =
    (λ e. absurd (ground (arith, e, m.0)), Misses-WritesBelow j v es m.1)

pub Misses-append : (j : Bytes) (es fs : List LogEntry) → Misses j (es ++ fs) → Misses j es
Misses-append j [] fs m = tt
Misses-append j ((k, n, y) ∷ es) fs m = (m.0, Misses-append j es fs m.1)

pub WritesBelow-append :
    (j : Bytes) (v : ℕ) (es fs : List LogEntry) → WritesBelow j v (es ++ fs) → WritesBelow j v es
WritesBelow-append j v [] fs m = tt
WritesBelow-append j v ((k, n, y) ∷ es) fs m = (m.0, WritesBelow-append j v es fs m.1)

pub IsRising-top : (b t : ℕ) (es : List LogEntry) → IsRising b t es → b ≤ t
IsRising-top b t [] r = r
IsRising-top b t ((k, n, y) ∷ es) r = let h = IsRising-top n t es r.1 in omega (arith, r.0)

IsRising-mono : (a b t : ℕ) (es : List LogEntry) → a ≤ b → IsRising b t es → IsRising a t es
IsRising-mono a b t [] h r = omega arith
IsRising-mono a b t ((k, n, y) ∷ es) h r = (omega (arith, r.0), r.1)

IsRising-log_entries :
    (n t : ℕ) (ws : Writeset) (es : List LogEntry)
    → IsRising n t es
    → IsRising n t (log_entries n ws ++ es)
unfolding log_entries
IsRising-log_entries n t [] es r = r
IsRising-log_entries n t ((k, y) ∷ ws) es r = (omega arith, IsRising-log_entries n t ws es r)

module _ ⦃c : Crates⦄ where
  pub log_of-IsRising :
      (b t : ℕ) (cs : Commits) → IsLog b cs → last_version b cs ≤ t → IsRising b t (log_of cs)
  log_of-IsRising b t [] l h = h
  log_of-IsRising b t ((n, ws) ∷ cs) l h =
      IsRising-mono b n t (log_of ((n, ws) ∷ cs)) l.0
        (IsRising-log_entries n t ws (log_of cs) (log_of-IsRising n t cs l.2 h))

  pub log_of-append : (cs ds : Commits) → log_of (cs ++ ds) ≡ log_of cs ++ log_of ds
  log_of-append [] ds = refl
  log_of-append ((n, ws) ∷ cs) ds =
      ap (λ l. log_entries n ws ++ l) (log_of-append cs ds)
      ∙ sym (append_assoc (log_entries n ws) (log_of cs) (log_of ds))

  pub IsLog-append : (b : ℕ) (cs ds : Commits) → IsLog b (cs ++ ds) → IsLog b cs
  IsLog-append b [] ds l = tt
  IsLog-append b ((n, ws) ∷ cs) ds l = (l.0, l.1, IsLog-append n cs ds l.2)
