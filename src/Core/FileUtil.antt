-- ===== src/Core/FileUtil.antt =====
-- `writeAtomicBytes` of Core/src/FileUtil.cpp: the file and its temporary copy, and what the calls of the
-- system answer. A code of 0 is success.
pub mod Atomic
use Prim.Native.Nat.{min}
use vpn_client.Prelude.{
  Bool, ◌&&◌, ◌||◌, ℕ, ◌^◌, ◌==◌, not, if◌then◌else◌, List, [], ◌∷◌, ◌++◌, Option, none, some, take,
  drop, Bytes, codes,
}
use vpn_client.Core.Status.{ErrorCode, Status, ok_status, is_error, make}
use vpn_client.Core.WinError.{from_win32}

-- What the file and its temporary copy hold, where they are there.
pub record Disk : Type 0 where
  pub target : Option Bytes
  pub temp : Option Bytes

-- What a call of `WriteFile` answers: how many bytes it took, or a failure with its code.
pub data Write : Type 0 where
  takes : ℕ → Write
  refuses : ℕ → Write

-- The answers: a message where the directory cannot be made, and the codes of the other calls. Where
-- `ReplaceFileW` fails with `ERROR_UNABLE_TO_MOVE_REPLACEMENT` or its second form, `replaced_lost` says
-- whether the file that was to be replaced is gone from its name.
pub record Answers : Type 0 where
  pub directory : Option Bytes
  pub create_code : ℕ
  pub writes : List Write
  pub flush_code : ℕ
  pub rename_code : ℕ
  pub replaced_lost : Bool

-- `ERROR_DISK_FULL`, where no answer is left.
abbrev pub disk_full : ℕ
disk_full = 112

-- The codes after which `ReplaceFileW`, called without a backup name, may leave no file under the
-- name of the replaced one.
abbrev pub may_lose : ℕ → Bool
may_lose code = code == 1176 || code == 1177

-- What a rename that failed leaves under the name of the file: `MoveFileExW` leaves it as it was, and so
-- does `ReplaceFileW` but for those codes.
unfoldable pub after_failure : Answers → Option Bytes → Option Bytes
after_failure answers none = none
after_failure answers (some old) =
    if may_lose answers.rename_code && answers.replaced_lost then none else some old

abbrev held : Option Bytes → Bytes
held none = []
held (some b) = b

-- The call that puts the temporary file in the place of the file.
abbrev pub rename_call : Option Bytes → Bytes
rename_call none = codes "MoveFileEx"
rename_call (some old) = codes "ReplaceFile"

module _ (system_text : ℕ → Bytes) (path : Bytes) where
  abbrev pub failure : Bytes → ℕ → Status
  failure call code = from_win32 system_text code (call ++ (codes "(" ++ (path ++ codes ")")))

  -- The loop of writes: its status, the disk that it leaves, and the disks on the way.
  unfoldable pub write_chunks : List Write → Bytes → Disk → Status × Disk × List Disk
  unfolding from_win32
  write_chunks writes [] d = (ok_status, d, [])
  write_chunks [] (b ∷ text) d = (failure (codes "WriteFile") disk_full, d, [])
  write_chunks (refuses code ∷ writes) (b ∷ text) d = (failure (codes "WriteFile") code, d, [])
  write_chunks (takes n ∷ writes) (b ∷ text) d =
      let chunk = min n (2 ^ 20) in
      let next : Disk = record d { temp = some (held d.temp ++ take chunk (b ∷ text)) } in
      let rest = write_chunks writes (drop chunk (b ∷ text)) next in (rest.0, rest.1, next ∷ rest.2)

  -- What is done once the temporary file is written.
  unfoldable pub finish : Answers → Status → Disk → Status × Disk
  unfolding from_win32 after_failure
  finish answers written d =
      if is_error written
      then (written, d)
      else if not (answers.flush_code == 0)
      then (failure (codes "FlushFileBuffers") answers.flush_code, d)
      else if not (answers.rename_code == 0)
      then (
        failure (rename_call d.target) answers.rename_code,
        record { target = after_failure answers d.target; temp = none },
      )
      else (ok_status, record { target = d.temp; temp = none })

  -- `writeAtomicBytes`, with the disks on the way to the one that it leaves.
  unfoldable pub write_atomic : Answers → Bytes → Disk → Status × Disk × List Disk
  unfolding from_win32 write_chunks finish
  write_atomic answers text d = elim answers.directory [
    | some message ↦ (make ErrorCode.io_error (codes "cannot create directory " ++ message), d, [])
    | none ↦
        if not (answers.create_code == 0)
        then (failure (codes "CreateFile") answers.create_code, d, [])
        else (let opened : Disk = record d { temp = some [] } in
            let written = write_chunks answers.writes text opened in
            let done = finish answers written.0 written.1 in (done.0, done.1, opened ∷ written.2))
  ]
