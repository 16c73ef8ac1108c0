-- ===== src/Core/FileUtil/Atomic.antt =====
-- Writing a file as a whole, Core/src/FileUtil.cpp.
use Prim.Native.Nat.{min}
use vpn_client.Prelude.{
  ◌&&◌, ◌⊎◌, ℕ, ◌^◌, ◌==◌, true, false, List, [], ◌∷◌, ◌++◌, append_assoc, append-nil, Option, none,
  some, take, drop, take-append-drop, ◌≡◌, refl, sym, ap, ◌∙◌, Bytes, codes, All, Bool-cases, inl,
  inr,
}
use vpn_client.Core.Status.{Status, is_error}
use vpn_client.Core.WinError.{from_win32-is_error}
use vpn_client.Core.FileUtil.{
  may_lose, after_failure, Disk, Write, takes, refuses, Answers, disk_full, failure, rename_call,
  write_chunks, finish, write_atomic,
}

-- A call that fails says so.
unfoldable pub IsHonest : List Write → Type 0
IsHonest [] = Unit
IsHonest (takes n ∷ writes) = IsHonest writes
IsHonest (refuses code ∷ writes) = ((code == 0) ≡ false) × IsHonest writes

module _ (system_text : ℕ → Bytes) (path : Bytes) where
  failure-is_error :
      (call : Bytes) (code : ℕ)
      → (code == 0) ≡ false
      → is_error (failure system_text path call code) ≡ true
  failure-is_error call code failed = from_win32-is_error system_text code _ failed

  -- The loop leaves the file alone, and has written all of the text if it reports no error.
  record IsWritten (target : Option Bytes) (old text : Bytes) (r : Status × Disk × List Disk)
      : Type 0 where
    kept : r.1.target ≡ target
    on_the_way : All (λ (e : Disk). e.target ≡ target) r.2
    whole : is_error r.0 ≡ false → r.1.temp ≡ some (old ++ text)

  write_chunks-IsWritten :
      (writes : List Write) (target : Option Bytes) (old text : Bytes)
      → IsHonest writes
      → IsWritten target old text
          (write_chunks system_text path writes text (record { target = target; temp = some old }))
  unfolding write_chunks IsHonest
  write_chunks-IsWritten [] target old [] h = record {
    kept = refl;
    on_the_way = tt;
    whole = λ f. ap some (sym (append-nil old));
  }
  write_chunks-IsWritten (w ∷ writes) target old [] h = record {
    kept = refl;
    on_the_way = tt;
    whole = λ f. ap some (sym (append-nil old));
  }
  write_chunks-IsWritten [] target old (b ∷ text) h = record {
    kept = refl;
    on_the_way = tt;
    whole = λ fine. absurd (cc (fine, failure-is_error (codes "WriteFile") disk_full refl));
  }
  write_chunks-IsWritten (refuses code ∷ writes) target old (b ∷ text) (failed, h) = record {
    kept = refl;
    on_the_way = tt;
    whole = λ fine. absurd (cc (fine, failure-is_error (codes "WriteFile") code failed));
  }
  write_chunks-IsWritten (takes n ∷ writes) target old (b ∷ text) h =
      let chunk = min n (2 ^ 20) in
      let rest =
        write_chunks-IsWritten writes target (old ++ take chunk (b ∷ text)) (drop chunk (b ∷ text))
          h in
      record {
        kept = rest.kept;
        on_the_way = (refl, rest.on_the_way);
        whole = λ fine.
            rest.whole fine
            ∙ ap some (
                append_assoc old (take chunk (b ∷ text)) (drop chunk (b ∷ text))
                ∙ ap (λ t. old ++ t) (take-append-drop chunk (b ∷ text)));
      }

  -- The file is the old one until the end. A success leaves the whole new text; an error leaves the old
  -- file, unless it was there and the replacing call reported a code that may lose it, and then the file
  -- is the old one or none.
  pub record IsAtomic (answers : Answers) (d : Disk) (text : Bytes) (r : Status × Disk × List Disk)
      : Type 0 where
    pub on_the_way : All (λ (e : Disk). e.target ≡ d.target) r.2
    pub written : is_error r.0 ≡ false → r.1.target ≡ some text
    pub kept : is_error r.0 ≡ true → may_lose answers.rename_code ≡ false → r.1.target ≡ d.target
    pub never_mixed : is_error r.0 ≡ true → (r.1.target ≡ d.target) ⊎ (r.1.target ≡ none)

  after_failure-kept :
      (answers : Answers) (target : Option Bytes)
      → may_lose answers.rename_code ≡ false
      → after_failure answers target ≡ target
  unfolding after_failure
  after_failure-kept answers none h = refl
  after_failure-kept answers (some old) h = rw (h, after_failure) refl

  after_failure_cases :
      (answers : Answers) (target : Option Bytes)
      → (after_failure answers target ≡ target) ⊎ (after_failure answers target ≡ none)
  unfolding after_failure
  after_failure_cases answers none = inl refl
  after_failure_cases answers (some old) =
      elim (Bool-cases (may_lose answers.rename_code && answers.replaced_lost)) [
        | inl lost ↦ rw (lost, after_failure) (inr refl)
        | inr safe ↦ rw (safe, after_failure) (inl refl)
      ]

  -- What `finish` makes of the file: the temporary one after a success, and after an error what the rename
  -- leaves, or the old one.
  record IsFinished (answers : Answers) (written : Status) (d : Disk) (r : Status × Disk)
      : Type 0 where
    good : is_error r.0 ≡ false → (is_error written ≡ false) × (r.1.target ≡ d.temp)
    bad :
        is_error r.0 ≡ true
        → (r.1.target ≡ d.target) ⊎ (r.1.target ≡ after_failure answers d.target)

  finish-IsFinished :
      (answers : Answers) (written : Status) (d : Disk)
      → IsFinished answers written d (finish system_text path answers written d)
  unfolding finish
  finish-IsFinished answers written d = elim (Bool-cases (is_error written)) [
    | inl failed ↦
        rw (failed, finish)
          (record { good = λ fine. absurd (cc (fine, failed)); bad = λ h. inl refl })
    | inr fine ↦ elim (Bool-cases (answers.flush_code == 0)) [
      | inr flush ↦
          rw (fine, finish)
            (rw flush (record {
              good = λ f.
                  absurd
                    (cc (f, failure-is_error (codes "FlushFileBuffers") answers.flush_code flush));
              bad = λ h. inl refl;
            }))
      | inl flushed ↦ elim (Bool-cases (answers.rename_code == 0)) [
        | inr rename ↦
            rw (fine, finish)
              (rw flushed (
                rw rename (record {
                  good = λ f.
                      absurd (
                        cc (f, failure-is_error (rename_call d.target) answers.rename_code rename));
                  bad = λ h. inr refl;
                })))
        | inl renamed ↦
            rw (fine, finish)
              (rw flushed
                (rw renamed (record { good = λ f. (fine, refl); bad = λ h. absurd (cc (h)) })))
      ]
    ]
  ]

  -- If every write that fails has a code other than 0: the file is the old one at each step before the
  -- last, and the new text as a whole if the status is no error. If it is an error, the file is still the
  -- old one, unless the rename reported `ERROR_UNABLE_TO_MOVE_REPLACEMENT` (1176) or its second form
  -- (1177); the file is the old one or is not there then.
  pub write_atomic-IsAtomic :
      (answers : Answers) (text : Bytes) (d : Disk)
      → IsHonest answers.writes
      → IsAtomic answers d text (write_atomic system_text path answers text d)
  unfolding write_atomic
  write_atomic-IsAtomic answers text d h = go answers.directory refl
    where
      go :
          (made : Option Bytes)
          → answers.directory ≡ made
          → IsAtomic answers d text (write_atomic system_text path answers text d)
      go (some message) e =
          rw (e, write_atomic)
            (record {
              on_the_way = tt;
              written = λ f. absurd (cc (f));
              kept = λ f safe. refl;
              never_mixed = λ f. inl refl;
            })
      go none e = elim (Bool-cases (answers.create_code == 0)) [
        | inr failed ↦
            rw (e, write_atomic)
              (rw failed (record {
                on_the_way = tt;
                written = λ f.
                    absurd
                      (cc (f, failure-is_error (codes "CreateFile") answers.create_code failed));
                kept = λ f safe. refl;
                never_mixed = λ f. inl refl;
              }))
        | inl created ↦
            let w = write_chunks-IsWritten answers.writes d.target [] text h in
            let r =
              write_chunks system_text path answers.writes text
                (record { target = d.target; temp = some [] }) in
            let f = finish-IsFinished answers r.0 r.1 in
            rw (e, write_atomic)
              (rw created (record {
                on_the_way = (refl, w.on_the_way);
                written = λ fine. let (good, same) = f.good fine in same ∙ w.whole good;
                kept = λ bad safe. elim (f.bad bad) [
                  | inl same ↦ same ∙ w.kept
                  | inr left ↦ left ∙ after_failure-kept answers _ safe ∙ w.kept
                ];
                never_mixed = λ bad. elim (f.bad bad) [
                  | inl same ↦ inl (same ∙ w.kept)
                  | inr left ↦ elim (after_failure_cases answers r.1.target) [
                    | inl same ↦ inl (left ∙ same ∙ w.kept)
                    | inr lost ↦ inr (left ∙ lost)
                  ]
                ];
              }))
      ]
