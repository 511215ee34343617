-- ===== src/Persistence/Safety.antt =====
-- What a snapshot and the truncation after it do to the files, on success and on every failure.
use stupid_kv.Base.{
  ℕ, ◌+◌, ◌≤◌, ◌≡◌, ◌≢◌, ◌⊎◌, inl, inr, Bool, if◌then◌else◌, true, refl, sym, ap, subst, ◌∙◌, false,
  Option, none, some, [], ◌∷◌, ◌++◌, Bytes, bytes_ord, nat_ord, arith, ltb, length, length-append,
  take, take-drop, drop, drop-append, ok, err, append_nil, Option-cases, Bool-cases, Crates, Result,
}
use stupid_kv.Compression.{CompressionMode}
use stupid_kv.Db.{Datastore}
use stupid_kv.Persistence.{Persistence, PersistenceError, Aol}
use stupid_kv.Persistence.Files.{
  Files, Saving, Truncating, Saved, snapshot, snapshot_contents, publish_snapshot, truncate, settle,
  cut_log, aol_len, save, clean, temp_left, Unsaved,
}

-- The log after a truncation: empty, or with its tail once more at its end, or on an error with a
-- part of the tail.
abbrev pub Cut : Aol → Bytes → Aol × Result PersistenceError (Unit {0}) → Type 0
Cut file tail (out, ok u) =
    ((tail ≡ []) × (out.contents ≡ [])) ⊎ ((tail ≢ []) × (out.contents ≡ file.contents ++ tail))
Cut file tail (out, err e) =
    (part : Bytes) × (rest : Bytes) × (out.contents ≡ file.contents ++ part) × (part ++ rest ≡ tail)

nothing : (bytes : Bytes) → length bytes ≤ 0 → bytes ≡ []
nothing [] h = refl
nothing (x ∷ bytes) h = absurd (omega arith)

-- A truncation at a position in a log, on each branch: where nothing follows the position the log is
-- emptied; where a tail follows, the log keeps everything, its start included, and has the tail once
-- more at its end; and on an error it keeps everything and has a part of the tail, possibly none or
-- all of it, once more at its end.
pub cut_log-Cut :
    (file : Aol) (front tail : Bytes) (t : Truncating)
    → file.contents ≡ front ++ tail
    → Cut file tail (cut_log (length front) t file)
unfolding cut_log
cut_log-Cut file front tail t e =
    let rest : drop (length front) file.contents ≡ tail = rw e (drop-append front tail) in
    let size : length file.contents ≡ length front + length tail =
      ap length e ∙ length-append front tail in
    elim (Bool-cases (ltb (length front) (length file.contents))) [
      | inl longer ↦ elim (Option-cases t.failed) [
        | inl f ↦
            rw (longer, f, rest, cut_log)
              (inr (λ empty. ground (arith, longer, size, ap length empty), refl))
        | inr (x, f) ↦
            rw (longer, f, rest, cut_log)
              (take t.copied tail, drop t.copied tail, refl, take-drop t.copied tail)
      ]
      | inr short ↦ elim (Option-cases t.failed) [
        | inl f ↦ rw (short, f, cut_log) (inl (nothing tail (ground (arith, short, size)), refl))
        | inr (x, f) ↦ rw (short, f, cut_log) ([], tail, sym (append_nil file.contents), refl)
      ]
    ]

-- Where nothing was appended since the position was taken.
abbrev Emptied : Persistence → Persistence × Result PersistenceError (Unit {0}) → Type 0
Emptied p out =
    ((out.0.aol ≡ p.aol) ⊎ (aol_len out.0.aol ≡ 0)) × (out.1 ≡ ok tt → aol_len out.0.aol ≡ 0)

not_longer : (n : ℕ) → ltb n n ≡ false
not_longer n = ground arith

cut_own :
    (t : Truncating) (file : Aol)
    → ((e : PersistenceError)
        → t.failed ≡ some e
        → cut_log (length file.contents) t file ≡ (file, err e))
      × (t.failed ≡ none
          → cut_log (length file.contents) t file ≡ (record { contents = []; synced = 0 }, ok tt))
unfolding cut_log
cut_own t file = (
  λ e f. rw (f, not_longer (length file.contents), cut_log) refl,
  λ f. rw (f, not_longer (length file.contents), cut_log) refl,
)

truncate-Emptied : (t : Truncating) (p : Persistence) → Emptied p (truncate (aol_len p.aol) t p)
unfolding truncate settle
truncate-Emptied t p = emptied p.aol refl
  where
    emptied : (o : Option Aol) → p.aol ≡ o → Emptied p (truncate (aol_len o) t p)
    emptied none e = rw (e, truncate) (inl e, λ _. rw e refl)
    emptied (some file) e = elim (Option-cases t.lock) [
      | inr (x, l) ↦ rw (e, l, truncate) (inl e, λ h. cc)
      | inl l ↦
          let place = length file.contents in
          let same : truncate place t p ≡ settle place p (cut_log place t file) =
            rw (e, l, truncate) refl in
          elim (Option-cases t.failed) [
            | inr (x, f) ↦
                subst (Emptied p) (sym (same ∙ ap (settle place p) ((cut_own t file).0 x f)))
                  (inl (sym e), λ h. cc)
            | inl f ↦
                subst (Emptied p) (sym (same ∙ ap (settle place p) ((cut_own t file).1 f)))
                  (inr refl, λ h. refl)
          ]
    ]

module _ ⦃c : Crates⦄ (mode : CompressionMode) (ds : Datastore) (files : Files)
    (p : Persistence) where
  -- The bytes of the new snapshot.
  abbrev contents : Bytes
  contents = snapshot_contents mode ds

  -- Where a temporary file is left, the system could not remove it, nothing else was changed, and it
  -- is an old one or a first part of the new snapshot.
  abbrev pub Leftover : Bool → Saved → Type 0
  Leftover removes out =
      (t : Bytes)
      → out.0.temp ≡ some t
      → (removes ≡ false)
        × (out.0.snapshot ≡ files.snapshot)
        × (out.1.aol ≡ p.aol)
        × ((files.temp ≡ some t) ⊎ ((rest : Bytes) × (t ++ rest ≡ contents)))

  -- The snapshot file is the old one or the whole new one, and the log is the old one or it is
  -- empty and the new snapshot is there; success means that both are new.
  pub record IsSafe (removes : Bool) (out : Saved) : Type 0 where
    pub whole : (out.0.snapshot ≡ files.snapshot) ⊎ (out.0.snapshot ≡ some contents)
    pub log : (out.1.aol ≡ p.aol) ⊎ ((out.0.snapshot ≡ some contents) × (aol_len out.1.aol ≡ 0))
    pub leftover : Leftover removes out
    pub success :
        out.2 ≡ ok tt
        → (out.0.snapshot ≡ some contents) × (out.0.temp ≡ none) × (aol_len out.1.aol ≡ 0)

  kept_temp :
      (removes : Bool) (u : Unsaved) (t : Bytes)
      → (if removes then none else temp_left u contents files) ≡ some t
      → (removes ≡ false) × (temp_left u contents files ≡ some t)
  kept_temp true u t h = cc
  kept_temp false u t h = (refl, h)

  old_or_part :
      (written : Option ℕ) (error : PersistenceError) (t : Bytes)
      → temp_left (record { error = error; written = written }) contents files ≡ some t
      → (files.temp ≡ some t) ⊎ ((rest : Bytes) × (t ++ rest ≡ contents))
  old_or_part none error t h = inl h
  old_or_part (some n) error t h =
      let same : take n contents ≡ t = cc h in
      inr
        (drop n contents, subst (λ x. x ++ drop n contents ≡ contents) same (take-drop n contents))

  -- A failure before the renaming, by whether the file was made and can be removed.
  unsaved-IsSafe :
      (s : Saving) (written : Option ℕ) (error : PersistenceError)
      → IsSafe s.removes (
          clean s (
            record files {
              temp = temp_left (record { error = error; written = written }) contents files;
            },
            p,
            err error,
          ))
  unfolding clean
  unsaved-IsSafe s written error = record {
    whole = inl refl;
    log = inl refl;
    leftover = λ t h.
        let (refused, kept) =
          kept_temp s.removes (record { error = error; written = written }) t h in
        (refused, refl, refl, old_or_part written error t kept);
    success = λ h. cc;
  }

  -- From the renaming on, no temporary file is there.
  clean-renamed :
      (s : Saving) (q : Persistence) (result : Result PersistenceError (Unit {0}))
      → clean s (record { snapshot = some contents; temp = none }, q, result)
        ≡ (record { snapshot = some contents; temp = none }, q, result)
  unfolding clean
  clean-renamed s q (ok u) = refl
  clean-renamed s q (err e) = ground arith

  -- A snapshot while nothing is appended, whatever fails in it: the snapshot file is the old one or
  -- the whole new one; the log keeps every byte, or it is emptied with the new snapshot in its
  -- place; a temporary file is left only where the system could not remove it, it is then an old one
  -- or a first part of the new snapshot, and the snapshot file and the log are the old ones; and
  -- where the snapshot succeeds it is the new one, no temporary file is there, and the log is empty
  -- or not there.
  pub snapshot-IsSafe : (s : Saving) → IsSafe s.removes (snapshot mode ds s files p)
  unfolding snapshot save publish_snapshot truncate cut_log
  snapshot-IsSafe s = elim (Option-cases s.before) [
    | inr (u, e) ↦ rw (e, snapshot, save) (unsaved-IsSafe s u.written u.error)
    | inl e ↦ elim (Option-cases s.sync) [
      | inr (x, f) ↦
          rw (e, f, snapshot, save)
            (rw (clean-renamed s p (err x)) (record {
              whole = inr refl;
              log = inl refl;
              leftover = λ t h. cc;
              success = λ h. cc;
            }))
      | inl f ↦
          let (log, emptied) = truncate-Emptied s.truncating p in
          rw (e, f, snapshot, save)
            (rw
              (clean-renamed s (truncate (aol_len p.aol) s.truncating p).0
                (truncate (aol_len p.aol) s.truncating p).1)
              (record {
                whole = inr refl;
                log = elim log [ inl same ↦ inl same | inr empty ↦ inr (refl, empty) ];
                leftover = λ t h. cc;
                success = λ h. (refl, refl, emptied h);
              }))
    ]
  ]
