-- ===== src/Tx/Commit/Logged.antt =====
-- What the log of a commit makes of its result, read off the modes and the disk alone.
use stupid_kv.Base.{ℕ, ◌≡◌, true, refl, ap, ◌∙◌, Option, none, some, Result, ok, err, Crates}
use stupid_kv.Queue.{Writeset}
use stupid_kv.Persistence.{PersistenceError, Persistence, Disk}
use stupid_kv.Persistence.Faults.{logging, fault, after, told, append-Told}
use stupid_kv.Tx.{Error, tx_commit_not_persisted}
use stupid_kv.Tx.Commit.{commit_result}
use stupid_kv.Tx.Commit.Stages.{log_result, log_after}
use stupid_kv.Tx.Commit.View.{takes_effect}

-- The result of a commit that took effect, by the error of its log.
abbrev pub commit_told : Option PersistenceError → Result Error (Unit {0})
commit_told none = ok tt
commit_told (some e) = err (tx_commit_not_persisted e)

module _ ⦃c : Crates⦄ where
  pub takes_effect-commit_told : (e : Option PersistenceError) → takes_effect (commit_told e) ≡ true
  takes_effect-commit_told none = refl
  takes_effect-commit_told (some e) = refl

  result_told : (e : Option PersistenceError) → commit_result (told e) ≡ commit_told e
  result_told none = refl
  result_told (some e) = refl

  pub log-Told :
      (p : Option Persistence) (version : ℕ) (ws : Writeset) (disk : Disk)
      → (log_result p version ws disk ≡ commit_told (fault (logging p) disk))
        × (logging (log_after p version ws disk) ≡ after (logging p) disk)
  log-Told none version ws disk = (refl, refl)
  log-Told (some p) version ws disk =
      let (answer, next) = append-Told p version ws disk in
      (ap commit_result answer ∙ result_told (fault (logging (some p)) disk), next)
