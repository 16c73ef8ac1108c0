-- ===== src/Services/Framing/Stream.antt =====
-- Reading frames from a pipe, Services/src/IpcServer.cpp, does not depend on how the bytes arrive.
use vpn_client.Prelude.{
  ℕ, zero, suc, ◌-◌, ◌<◌, ◌≤◌, true, false, leb, if◌then◌else◌, List, [], ◌∷◌, ◌++◌, length, take,
  drop, length-append, take-append_short, drop-append_short, take-append_long, drop-append_long,
  ◌≡◌, refl, sym, ap, ◌∙◌, arith, leb→le, Bytes, Bool-cases, inl, inr,
}
use vpn_client.Core.Status.{Result, value, error, ◌>>=◌}
use vpn_client.Services.Framing.{
  JsonText, Delivery, bytes, fails, broken_pipe, read_failure, read_exact, read_body, read_frame,
  read_frame_length, IsFaithful, frame, prefix_of,
}
use vpn_client.Services.Framing.Bounds.{read_frame_length-frame}

-- The bytes that a pipe brings.
unfoldable pub stream : List Delivery → Bytes
stream [] = []
stream (bytes b ∷ pipe) = b ++ stream pipe
stream (fails code ∷ pipe) = stream pipe

-- Every read brings at least one byte, until the peer closes the pipe.
unfoldable pub IsFlowing : List Delivery → Type 0
IsFlowing [] = Unit
IsFlowing (bytes [] ∷ pipe) = ⊥
IsFlowing (bytes (b ∷ bs) ∷ pipe) = IsFlowing pipe
IsFlowing (fails code ∷ pipe) = ⊥

drop-IsFlowing :
    (n : ℕ) (b : Bytes) (pipe : List Delivery)
    → n < length b
    → IsFlowing pipe
    → IsFlowing (bytes (drop n b) ∷ pipe)
unfolding IsFlowing
drop-IsFlowing zero (x ∷ b) pipe small h = h
drop-IsFlowing (suc n) (x ∷ b) pipe small h = drop-IsFlowing n b pipe (omega (arith, small)) h
drop-IsFlowing n [] pipe small h = absurd (omega (arith, small))

module _ (system_text : ℕ → Bytes) where
  -- Reading `n` bytes from a stream.
  unfoldable pub take_exact : ℕ → Bytes → Result Bytes × Bytes
  unfolding read_failure
  take_exact n s =
      if leb n (length s)
      then (value (take n s), drop n s)
      else (error (read_failure system_text broken_pipe), [])

  -- Reading a frame from a stream.
  unfoldable pub take_body :
      {Json : Type 0} → JsonText Json → Result ℕ → Bytes → Result Json × Bytes
  unfolding take_exact
  take_body T (error e) s = (error e, s)
  take_body T (value n) s = let body = take_exact n s in ((do text ← body.0; T.parse text), body.1)

  unfoldable pub take_frame : {Json : Type 0} → JsonText Json → Bytes → Result Json × Bytes
  unfolding take_exact take_body read_frame_length
  take_frame T s =
      let prefix = take_exact 4 s in
      take_body T (do head ← prefix.0; read_frame_length head) prefix.1

  -- A read of a pipe and one of its stream have one result and leave the same bytes.
  pub record Matches {A : Type 0} (r : Result A × List Delivery) (s : Result A × Bytes)
      : Type 0 where
    pub result : r.0 ≡ s.0
    pub rest : stream r.1 ≡ s.1
    pub flowing : IsFlowing r.1

  take_exact-append :
      (n : ℕ) (b s : Bytes)
      → length b ≤ n
      → take_exact n (b ++ s) ≡ (
        (do more ← (take_exact (n - length b) s).0; value (b ++ more)),
        (take_exact (n - length b) s).1,
      )
  unfolding take_exact
  take_exact-append n b s h = elim (Bool-cases (leb (n - length b) (length s))) [
    | inl enough ↦
        rw (enough, take_exact)
          (rw (fits enough) (rw (take-append_long n b s h) (rw (drop-append_long n b s h) refl)))
    | inr short ↦ rw (short, take_exact) (rw (lacks short) refl)
  ]
    where
      fits : leb (n - length b) (length s) ≡ true → leb n (length (b ++ s)) ≡ true
      fits enough = ground (arith, enough, h, length-append b s)

      lacks : leb (n - length b) (length s) ≡ false → leb n (length (b ++ s)) ≡ false
      lacks short = ground (arith, short, h, length-append b s)

  take_exact-prefix :
      (n : ℕ) (b s : Bytes)
      → n ≤ length b
      → take_exact n (b ++ s) ≡ (value (take n b), drop n b ++ s)
  unfolding take_exact
  take_exact-prefix n b s h =
      rw (fits, take_exact) (rw (take-append_short n b s h) (rw (drop-append_short n b s h) refl))
    where
      fits : leb n (length (b ++ s)) ≡ true
      fits = ground (arith, h, length-append b s)

  read_exact-Matches :
      (n : ℕ) (pipe : List Delivery)
      → IsFlowing pipe
      → Matches (read_exact system_text n pipe) (take_exact n (stream pipe))
  unfolding read_exact take_exact stream IsFlowing
  read_exact-Matches zero pipe h =
      rw (take_exact-prefix 0 [] (stream pipe) (omega arith))
        (record { result = refl; rest = refl; flowing = h })
  read_exact-Matches (suc n) [] h =
      let short : leb (suc n) 0 ≡ false = ground arith in
      rw (short, take_exact) (record { result = refl; rest = refl; flowing = tt })
  read_exact-Matches (suc n) (bytes (b ∷ bs) ∷ pipe) h =
      elim (Bool-cases (leb (length (b ∷ bs)) (suc n))) [
        | inl whole ↦
            let fits : length (b ∷ bs) ≤ suc n = leb→le (length (b ∷ bs)) (suc n) whole in
            let m = read_exact-Matches (suc n - length (b ∷ bs)) pipe h in
            rw (whole, read_exact)
              (rw (take_exact-append (suc n) (b ∷ bs) (stream pipe) fits) (record {
                result = ap (λ (r : Result Bytes). do more ← r; value ((b ∷ bs) ++ more)) m.result;
                rest = m.rest;
                flowing = m.flowing;
              }))
        | inr part ↦
            let short : suc n ≤ length (b ∷ bs) = ground (arith, part) in
            rw (part, read_exact)
              (rw (take_exact-prefix (suc n) (b ∷ bs) (stream pipe) short) (record {
                result = refl;
                rest = refl;
                flowing = drop-IsFlowing (suc n) (b ∷ bs) pipe (ground (arith, part)) h;
              }))
      ]
  read_exact-Matches (suc n) (bytes [] ∷ pipe) h = absurd h
  read_exact-Matches (suc n) (fails code ∷ pipe) h = absurd h

  read_body-Matches :
      {Json : Type 0} (T : JsonText Json) (n : Result ℕ) (pipe : List Delivery)
      → IsFlowing pipe
      → Matches (read_body system_text T n pipe) (take_body T n (stream pipe))
  unfolding read_body take_body
  read_body-Matches T (error e) pipe h = record { result = refl; rest = refl; flowing = h }
  read_body-Matches T (value n) pipe h =
      let m = read_exact-Matches n pipe h in
      record {
        result = ap (λ (r : Result Bytes). do text ← r; T.parse text) m.result;
        rest = m.rest;
        flowing = m.flowing;
      }

  -- However the bytes of a stream are split into reads that each bring at least one, `readFrame` returns
  -- what it returns on the stream, and leaves the rest of the stream to be read the same way.
  pub read_frame-Matches :
      {Json : Type 0} (T : JsonText Json) (pipe : List Delivery)
      → IsFlowing pipe
      → Matches (read_frame system_text T pipe) (take_frame T (stream pipe))
  unfolding read_frame take_frame
  read_frame-Matches T pipe h =
      let p = read_exact-Matches 4 pipe h in
      let b =
        read_body-Matches T (do head ← (read_exact system_text 4 pipe).0; read_frame_length head)
          (read_exact system_text 4 pipe).1 p.flowing in
      rw (sym p.result) (rw (sym p.rest) b)

  take_exact-whole : (b s : Bytes) → take_exact (length b) (b ++ s) ≡ (value b, s)
  take_exact-whole b s =
      take_exact-prefix (length b) b s (omega arith)
      ∙ ap (λ (p : Bytes × Bytes). (value p.0, p.1 ++ s)) (whole b)
    where
      whole :
          (xs : Bytes) → ◌≡◌ {A = Bytes × Bytes} (take (length xs) xs, drop (length xs) xs) (xs, [])
      whole [] = refl
      whole (x ∷ xs) = ap (λ (p : Bytes × Bytes). (x ∷ p.0, p.1)) (whole xs)

  -- Where the JSON library reads back what it writes, a frame that `frame` made is read back from the
  -- front of a stream, whatever follows it.
  pub take_frame-frame :
      {Json : Type 0} (T : JsonText Json) (faithful : IsFaithful T) (json : Json)
      (framed more : Bytes)
      → frame T json ≡ value framed
      → take_frame T (framed ++ more) ≡ (value json, more)
  unfolding take_frame take_body prefix_of
  take_frame-frame T faithful json framed more h =
      let (text, same, length_read, parsed) = read_frame_length-frame T faithful json framed h in
      let prefix = prefix_of (length text) in
      let split : framed ++ more ≡ prefix ++ (text ++ more) = ap (λ f. f ++ more) same in
      let read : read_frame_length prefix ≡ value (length text) = length_read [] in
      rw split (
        rw (take_exact-whole prefix (text ++ more), take_frame)
          (rw read (rw (take_exact-whole text more, take_body) (rw parsed refl))))
