-- ===== src/Tests/Races.antt =====
-- Commits that overlap: two threads in turn, and a race that the code loses.
use stupid_kv.Base.{
  ℕ, suc, ◌<◌, ◌≡◌, ◌≢◌, refl, true, false, none, some, List, [], ◌∷◌, bytes_ord, nat_ord, arith,
  get_elem?, get_or, zero, subst, cmp_bytes, any,
}
use stupid_kv.Base.Collections.Instance.{list_crates}
use stupid_kv.Base.BTreeMap.{IsAscending}
use stupid_kv.Base.BTreeMap
use stupid_kv.Bloom
use stupid_kv.Bloom.Contains.{insert_all}
use stupid_kv.Queue.{Writeset, Commit}
use stupid_kv.Queue
use stupid_kv.Tx.Begin.{fresh-IsReadset, new_empty}
use stupid_kv.Tx.Commit.{commit_entry, entry_conflict}
use stupid_kv.Tx.Commit.Conflict.{shared}
use stupid_kv.Race.{idle, passed, Thread, Race, run, smooth, start}
use stupid_kv.Race.Runs.{IsReady, Ready}
use stupid_kv.Race.Safety.{first_committer_wins}
use stupid_kv.Tests.{key_a, key_b, one_write, writer}

abbrev other_write : Writeset
other_write = (key_a, some key_b) ∷ []

abbrev writes : Writeset → Thread
writes w = record { tx = record writer { writeset = w }; phase = idle }

abbrev pair : List Thread
pair = writes other_write ∷ writes one_write ∷ []

-- Both load the same place; the second finds it taken and tries again.
abbrev in_turn : List ℕ
in_turn = 0 ∷ 1 ∷ 0 ∷ 1 ∷ 0 ∷ 1 ∷ 0 ∷ 1 ∷ 0 ∷ 1 ∷ 1 ∷ 1 ∷ 1 ∷ 1 ∷ 0 ∷ []

abbrev ended : Race
ended = run (start pair) in_turn

abbrev thread : Race → ℕ → Thread
thread s i = get_or s.threads i (writes [])

abbrev first_entry : Commit
first_entry = commit_entry other_write 1

abbrev second_entry : Commit
second_entry = commit_entry one_write 2

in_turn-smooth : smooth (start pair) in_turn ≡ true
unfolding smooth any BTreeMap.get commit_entry entry_conflict Queue.is_disjoint_writeset_bloom
    cmp_bytes
in_turn-smooth = refl

first_passed :
    (get_elem? ended.threads 0 ≡ some (thread ended 0))
    × ((thread ended 0).phase ≡ passed first_entry 1)
unfolding smooth any BTreeMap.get commit_entry entry_conflict Queue.is_disjoint_writeset_bloom
    cmp_bytes run
first_passed = (refl, refl)

second_passed :
    (get_elem? ended.threads 1 ≡ some (thread ended 1))
    × ((thread ended 1).phase ≡ passed second_entry 2)
unfolding smooth any BTreeMap.get commit_entry entry_conflict Queue.is_disjoint_writeset_bloom
    cmp_bytes run
second_passed = (refl, refl)

writes-IsReady : (w : Writeset) → IsAscending w → IsReady (writes w)
writes-IsReady w s = record {
  waits = refl;
  ascending = s;
  readset = fresh-IsReadset Bloom.new new_empty;
}

pair-Ready : Ready pair
pair-Ready zero th e = subst IsReady (cc e) (writes-IsReady other_write (tt, tt))
pair-Ready (suc zero) th e = subst IsReady (cc e) (writes-IsReady one_write (tt, tt))
pair-Ready (suc (suc i)) th e = absurd cc

-- Both began before the first entry came to its place.
first_committer_wins_example :
    (◌≢◌ {A = ℕ} 1 2)
    × ((thread ended 1).tx.commit < 1
        → 1 < 2
        → shared (thread ended 1).tx second_entry first_entry ≡ none)
first_committer_wins_example =
    first_committer_wins pair in_turn pair-Ready in_turn-smooth 0 1 (thread ended 0)
      (thread ended 1) first_entry second_entry 1 2 first_passed.0 second_passed.0 first_passed.1
      second_passed.1 (omega arith)

-- The second thread conflicts with the first and takes its entry out of place 2, which the third
-- has loaded; the fourth comes past the empty place, and then the third puts its entry there.
abbrev four : List Thread
four = writes other_write ∷ writes other_write ∷ writes one_write ∷ writes one_write ∷ []

abbrev in_race : List ℕ
in_race =
    0 ∷ 1 ∷ 2 ∷ 3 ∷ 0 ∷ 0 ∷ 0 ∷ 0 ∷ 0 ∷ 1 ∷ 1 ∷ 2 ∷ 2 ∷ 1 ∷ 1 ∷ 1 ∷ 3 ∷ 3 ∷ 3 ∷ 3 ∷ 3 ∷ 3 ∷ 3 ∷ 2
    ∷ 2 ∷ 2 ∷ 2 ∷ []

abbrev raced : Race
raced = run (start four) in_race

-- Both come to the end of their walk, though they write the same key and neither saw the other.
both_pass :
    ((thread raced 2).phase ≡ passed (commit_entry one_write 3) 2)
    × ((thread raced 3).phase ≡ passed (commit_entry one_write 4) 3)
    × ((thread raced 2).tx.commit ≡ 0)
    × ((thread raced 3).tx.commit ≡ 0)
    × (smooth (start four) in_race ≡ false)
unfolding smooth any BTreeMap.get commit_entry entry_conflict Queue.is_disjoint_writeset_bloom
    cmp_bytes run Bloom.may_contain Bloom.has_bits Bloom.has_bit insert_all Bloom.insert
    Bloom.set_bits Bloom.set_bit Bloom.new Bloom.position Queue.disjoint_keys BTreeMap.remove
both_pass = (refl, refl, refl, refl, refl)
