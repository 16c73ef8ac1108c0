-- ===== src/Services/Framing/Writing.antt =====
-- `writeAll` of Services/src/IpcServer.cpp.
use Prim.Native.Nat.{min}
use vpn_client.Prelude.{
  ℕ, ◌^◌, false, ◌==◌, List, [], ◌∷◌, ◌++◌, append_assoc, take, drop, take-append-drop, ◌≡◌, refl,
  sym, ap, ◌∙◌, Bytes, codes,
}
use vpn_client.Core.Status.{is_error}
use vpn_client.Core.WinError.{from_win32-is_error}
use vpn_client.Services.Framing.{Answer, wrote, refuses, broken_pipe, write_all}

-- A call of `WriteFile` that fails says so.
unfoldable pub IsAnswers : List Answer → Type 0
IsAnswers [] = Unit
IsAnswers (wrote n ∷ answers) = IsAnswers answers
IsAnswers (refuses code ∷ answers) = ((code == 0) ≡ false) × IsAnswers answers

-- Where each write that fails has a code other than 0, the peer gets a beginning of the bytes, and all of
-- them if the status is no error.
pub write_all-sends :
    (system_text : ℕ → Bytes) (answers : List Answer) (text : Bytes)
    → IsAnswers answers
    → (unsent : Bytes) × (text ≡ (write_all system_text answers text).1 ++ unsent)
      × (is_error (write_all system_text answers text).0 ≡ false → unsent ≡ [])
unfolding write_all IsAnswers
write_all-sends system_text [] [] h = ([], refl, λ fine. refl)
write_all-sends system_text (answer ∷ answers) [] h = ([], refl, λ fine. refl)
write_all-sends system_text [] (b ∷ text) h = (
  b ∷ text,
  refl,
  λ fine.
      absurd
        (cc (fine, from_win32-is_error system_text broken_pipe (codes "WriteFile(pipe)") refl)),
)
write_all-sends system_text (refuses code ∷ answers) (b ∷ text) (failed, h) = (
  b ∷ text,
  refl,
  λ fine. absurd (cc (fine, from_win32-is_error system_text code (codes "WriteFile(pipe)") failed)),
)
write_all-sends system_text (wrote n ∷ answers) (b ∷ text) h =
    let written = min n (2 ^ 20) in
    let (unsent, same, fine) = write_all-sends system_text answers (drop written (b ∷ text)) h in
    (
      unsent,
      sym (take-append-drop written (b ∷ text))
          ∙ ap (λ rest. take written (b ∷ text) ++ rest) same
          ∙ sym (append_assoc (take written (b ∷ text)) _ unsent),
      fine,
    )
