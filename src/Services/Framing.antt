-- ===== src/Services/Framing.antt =====
-- Frames of Services/src/IpcProtocol.cpp, and reading and writing them on a pipe, the functions
-- `readExact`, `writeAll` and `readFrame` of Services/src/IpcServer.cpp. A pipe is the list of the
-- answers that its calls of `ReadFile` and `WriteFile` find; past its end the peer has closed it.
pub mod Bounds
pub mod Stream
pub mod Writing
use Prim.Native.Nat.{min}
use vpn_client.Prelude.{
  is_empty, ℕ, zero, suc, ◌+◌, ◌-◌, ◌*◌, ◌/◌, ◌%◌, ◌^◌, ◌<◌, Bool, true, false, ◌==◌, ltb, leb,
  if◌then◌else◌, List, [], ◌∷◌, ◌++◌, length, take, drop, ◌⊎◌, inl, inr, ◌≡◌, ◌≢◌, Bytes, codes,
}
use vpn_client.Core.Text.{to_decimal}
use vpn_client.Core.Status.{
  ErrorCode, Status, ok_status, is_error, make, Result, value, error, ◌>>=◌,
}
use vpn_client.Core.WinError.{from_win32}
use vpn_client.Core.Json.{JsonLibrary}

-- `kMaxFrameBytes`.
abbrev pub max_frame_bytes : ℕ
max_frame_bytes = 8 * 1024 * 1024

-- `dump`, with the text of the exception on the left, and `json::parse`.
pub record JsonText (Json : Type 0) : Type 0 where
  pub dump : Json → Bytes ⊎ Bytes
  pub parse : Bytes → Result Json

-- The text of a document is not empty, and is read back.
pub record IsFaithful {Json : Type 0} (T : JsonText Json) : Type 0 where
  pub parse-dump : (json : Json) (text : Bytes) → T.dump json ≡ inr text → T.parse text ≡ value json
  pub dump_present : (json : Json) (text : Bytes) → T.dump json ≡ inr text → text ≢ []

abbrev ipc_error {ℓ} : {A : Type ℓ} → Bytes → Result A
ipc_error message = error (make ErrorCode.ipc_protocol message)

abbrev too_large {ℓ} : {A : Type ℓ} → ℕ → Result A
too_large n = ipc_error (codes "frame of " ++ (to_decimal n ++ codes " bytes exceeds the limit"))

-- The four bytes of a `u32`, the least first.
unfoldable pub prefix_of : ℕ → Bytes
prefix_of n = n % 256 ∷ n / 256 % 256 ∷ n / 65536 % 256 ∷ n / 16777216 % 256 ∷ []

unfoldable pub frame_text : Bytes → Result Bytes
unfolding prefix_of
frame_text text =
    if ltb max_frame_bytes (length text)
    then too_large (length text)
    else value (prefix_of (length text % 2 ^ 32) ++ text)

-- `frame`.
unfoldable pub frame : {Json : Type 0} → JsonText Json → Json → Result Bytes
unfolding frame_text
frame T json = elim (T.dump json) [
  | inl what ↦ error (make ErrorCode.serialization_error (codes "cannot serialise frame: " ++ what))
  | inr text ↦ frame_text text
]

-- The tests of `readFrameLength` on the length.
unfoldable pub check_length : ℕ → Result ℕ
check_length n =
    if n == 0
    then ipc_error (codes "empty frame")
    else if ltb max_frame_bytes n
    then too_large n
    else value n

-- `readFrameLength`; the four bytes do not overlap in the `u32`, so the sum stands for their union.
unfoldable pub read_frame_length : Bytes → Result ℕ
unfolding check_length
read_frame_length (a ∷ b ∷ c ∷ d ∷ rest) = check_length (a + b * 256 + c * 65536 + d * 16777216)
read_frame_length _ = ipc_error (codes "short frame prefix")

-- What a call of `ReadFile` finds: some bytes that the peer wrote, or a failure with its code.
pub data Delivery : Type 0 where
  bytes : Bytes → Delivery
  fails : ℕ → Delivery

-- What a call of `WriteFile` answers: how many bytes it took, or a failure with its code.
pub data Answer : Type 0 where
  wrote : ℕ → Answer
  refuses : ℕ → Answer

abbrev pub broken_pipe : ℕ
broken_pipe = 109

module _ (system_text : ℕ → Bytes) where
  unfoldable pub read_failure : ℕ → Status
  unfolding from_win32
  read_failure code = from_win32 system_text code (codes "ReadFile(pipe)")

  -- `readExact`; what a read leaves of a delivery stays in the pipe.
  unfoldable pub read_exact : ℕ → List Delivery → Result Bytes × List Delivery
  unfolding read_failure
  read_exact zero pipe = (value [], pipe)
  read_exact (suc n) [] = (error (read_failure broken_pipe), [])
  read_exact (suc n) (fails code ∷ pipe) = (error (read_failure code), pipe)
  read_exact (suc n) (bytes b ∷ pipe) =
      let rest = read_exact (suc n - length b) pipe in
      if is_empty b
      then (error (make ErrorCode.connection_reset (codes "pipe closed by peer")), pipe)
      else if leb (length b) (suc n)
      then ((do more ← rest.0; value (b ++ more)), rest.1)
      else (value (take (suc n) b), bytes (drop (suc n) b) ∷ pipe)

  -- `readFrame`, with the body that is read once its length is known.
  unfoldable pub read_body :
      {Json : Type 0} → JsonText Json → Result ℕ → List Delivery → Result Json × List Delivery
  unfolding read_exact
  read_body T (error s) pipe = (error s, pipe)
  read_body T (value n) pipe =
      let body = read_exact n pipe in ((do text ← body.0; T.parse text), body.1)

  unfoldable pub read_frame :
      {Json : Type 0} → JsonText Json → List Delivery → Result Json × List Delivery
  unfolding read_exact read_frame_length read_body
  read_frame T pipe =
      let prefix = read_exact 4 pipe in
      read_body T (do head ← prefix.0; read_frame_length head) prefix.1

  -- `writeAll`, with the bytes that the peer gets and the answers that are left. A call is given at most
  -- 2 ^ 20 bytes, and takes no more than it is given.
  unfoldable pub write_all : List Answer → Bytes → Status × Bytes × List Answer
  unfolding from_win32
  write_all answers [] = (ok_status, [], answers)
  write_all [] (b ∷ text) = (from_win32 system_text broken_pipe (codes "WriteFile(pipe)"), [], [])
  write_all (refuses code ∷ answers) (b ∷ text) =
      (from_win32 system_text code (codes "WriteFile(pipe)"), [], answers)
  write_all (wrote n ∷ answers) (b ∷ text) =
      let written = min n (2 ^ 20) in
      let rest = write_all answers (drop written (b ∷ text)) in
      (rest.0, take written (b ∷ text) ++ rest.1, rest.2)
