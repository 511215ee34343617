-- ===== src/Race/Update.antt =====
-- One thread changes: what the invariant asks of the change, and what the others keep.
use stupid_kv.Base.{
  ℕ, ◌<◌, ◌≡◌, ◌≢◌, ◌⊎◌, inl, inr, refl, sym, ap, subst, ◌∙◌, Option, none, some, nat_ord,
  bytes_ord, arith, eqb, eqb_iff, eqb_refl, Bool-cases, Crates,
}
use stupid_kv.Base.SkipMap
use stupid_kv.Queue.{Commit}
use stupid_kv.Tx.Commit.{entry_conflict}
use stupid_kv.Race.{Thread, Race}
use stupid_kv.Race.Invariant.{own, place, scanned, IsThread, IsRace, update}
use stupid_kv.Race.Phases.{own-numbered, place-own, place-held, place_of, id_of}

module _ ⦃c : Crates⦄ where
  pub at_update :
      (look : ℕ → Option Thread) (i : ℕ) (th : Thread) (j : ℕ) (b : Thread)
      → update look i th j ≡ some b
      → ((j ≡ i) × (th ≡ b)) ⊎ ((j ≢ i) × (look j ≡ some b))
  at_update look i th j b h = elim (Bool-cases (eqb j i)) [
    | inl same ↦ inl ((eqb_iff j i).0 same, ground (arith, same))
    | inr other ↦ inr (λ e. cc ((eqb_iff j i).1 e), ground (arith, other))
  ]

  module _ (s s' : Race) (look : ℕ → Option Thread) (i : ℕ) (th th' : Thread) (r : IsRace s look)
      (at : look i ≡ some th) where
    -- Its entry is the one that it had, or it has a new number.
    abbrev pub Same : Type 0
    Same = (u : Commit) → own th'.phase ≡ some u → (own th.phase ≡ some u) ⊎ (s.queue_id < u.id)

    module _ (same : Same) where
      numbers :
          (j : ℕ) (b : Thread) (t u : Commit)
          → look j ≡ some b
          → own th'.phase ≡ some t
          → own b.phase ≡ some u
          → t.id ≡ u.id
          → i ≡ j
      numbers j b t u hb et eu e = elim (same t et) [
        | inl old ↦ r.distinct i j th b t u at hb old eu e
        | inr new ↦ absurd (omega (arith, own-numbered s b.tx b.phase u (r.each j b hb).stands eu))
      ]

      pub distinct_update :
          (j k : ℕ) (a b : Thread) (t u : Commit)
          → update look i th' j ≡ some a
          → update look i th' k ≡ some b
          → own a.phase ≡ some t
          → own b.phase ≡ some u
          → t.id ≡ u.id
          → j ≡ k
      distinct_update j k a b t u ha hb et eu e = elim (at_update look i th' j a ha) [
        | inl (ji, same_a) ↦ elim (at_update look i th' k b hb) [
          | inl (ki, same_b) ↦ ji ∙ sym ki
          | inr (kn, hb') ↦
              ji ∙ numbers k b t u hb' (ap (λ (x : Thread). own x.phase) same_a ∙ et) eu e
        ]
        | inr (jn, ha') ↦ elim (at_update look i th' k b hb) [
          | inl (ki, same_b) ↦
              sym
                (ki ∙ numbers j a u t ha' (ap (λ (x : Thread). own x.phase) same_b ∙ eu) et (sym e))
          | inr (kn, hb') ↦ r.distinct j k a b t u ha' hb' et eu e
        ]
      ]

    -- What the new phase leaves to be shown of the walks: those that pass its place, and its own.
    abbrev pub Passes : Type 0
    Passes =
        (k : ℕ) (b : Thread) (t u : Commit) (v n : ℕ)
        → look k ≡ some b
        → place th'.phase ≡ some (t, v)
        → scanned b.phase ≡ some (u, n)
        → b.tx.commit < v
        → v < n
        → entry_conflict b.tx u t ≡ none

    abbrev pub Walks : Type 0
    Walks =
        (j : ℕ) (a : Thread) (t u : Commit) (v n : ℕ)
        → update look i th' j ≡ some a
        → place a.phase ≡ some (t, v)
        → scanned th'.phase ≡ some (u, n)
        → th'.tx.commit < v
        → v < n
        → entry_conflict th'.tx u t ≡ none

    pub checked_update :
        Passes
        → Walks
        → (j k : ℕ) (a b : Thread) (t u : Commit) (v n : ℕ) → update look i th' j ≡ some a
        → update look i th' k ≡ some b
        → place a.phase ≡ some (t, v)
        → scanned b.phase ≡ some (u, n)
        → b.tx.commit < v
        → v < n
        → entry_conflict b.tx u t ≡ none
    checked_update passes walks j k a b t u v n ha hb et eu low high =
        elim (at_update look i th' k b hb) [
          | inl (ki, same) ↦
              subst
                (λ (x : Thread).
                  scanned x.phase ≡ some (u, n) → x.tx.commit < v → entry_conflict x.tx u t ≡ none)
                same (λ eu' low'. walks j a t u v n ha et eu' low' high) eu low
          | inr (kn, hb') ↦ elim (at_update look i th' j a ha) [
            | inl (ji, same) ↦
                passes k b t u v n hb' (ap (λ (x : Thread). place x.phase) same ∙ et) eu low high
            | inr (jn, ha') ↦ r.checked j k a b t u v n ha' hb' et eu low high
          ]
        ]

    pub each_update :
        ((j : ℕ) (b : Thread) → j ≢ i → look j ≡ some b → IsThread s' b)
        → IsThread s' th'
        → (j : ℕ) (b : Thread) → update look i th' j ≡ some b
        → IsThread s' b
    each_update others mine j b h = elim (at_update look i th' j b h) [
      | inl (ji, same) ↦ subst (λ (x : Thread). IsThread s' x) same mine
      | inr (jn, h') ↦ others j b jn h'
    ]

    -- Who owns an entry of the queue still does, where this one keeps its place.
    pub owned_update :
        (v : ℕ) (t : Commit)
        → (place th.phase ≡ some (t, v) → place th'.phase ≡ some (t, v))
        → SkipMap.get s.queue v ≡ some t
        → (j : ℕ) × (b : Thread) × (update look i th' j ≡ some b) × (place b.phase ≡ some (t, v))
    owned_update v t stays e =
        let (j, a, look_j, placed) = r.owned v t e in
        elim (Bool-cases (eqb j i)) [
          | inl here ↦ (
            i,
            th',
            rw (eqb_refl i) refl,
            stays (ap place_of (sym (sym look_j ∙ ap look ((eqb_iff j i).0 here) ∙ at)) ∙ placed),
          )
          | inr other ↦ (j, a, rw other look_j, placed)
        ]

    -- No other thread has its place.
    pub alone :
        (t u : Commit) (v j : ℕ) (b : Thread)
        → place th.phase ≡ some (t, v)
        → look j ≡ some b
        → place b.phase ≡ some (u, v)
        → i ≡ j
    alone t u v j b mine hb placed =
        let here = (place-held s th.tx th.phase t v (r.each i th at).stands mine).0 in
        let there = (place-held s b.tx b.phase u v (r.each j b hb).stands placed).0 in
        r.distinct i j th b t u at hb (place-own th.phase t v mine) (place-own b.phase u v placed)
          (ap id_of (sym here ∙ there))
