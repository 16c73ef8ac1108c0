-- ===== src/Services/Framing/Bounds.antt =====
-- The length of a frame, Services/src/IpcProtocol.cpp.
use vpn_client.Prelude.{
  ℕ, ◌+◌, ◌*◌, ◌/◌, ◌%◌, ◌^◌, ◌<◌, ◌≤◌, ◌==◌, ltb, [], ◌∷◌, ◌++◌, length, inl, inr, ◌≡◌, ◌≢◌, ◌⊎◌,
  refl, sym, ap, ◌∙◌, arith, Bytes, Bool-cases,
}
use vpn_client.Core.Status.{value}
use vpn_client.Services.Framing.{
  max_frame_bytes, JsonText, IsFaithful, prefix_of, frame_text, frame, check_length,
  read_frame_length,
}

check_length-fits : (k n : ℕ) → check_length k ≡ value n → (0 < n) × (n ≤ max_frame_bytes) × (k ≡ n)
unfolding check_length
check_length-fits k n h = elim (Bool-cases (k == 0)) [
  | inl empty ↦ absurd (cc (rw (empty, check_length) at h))
  | inr present ↦ elim (Bool-cases (ltb max_frame_bytes k)) [
    | inl large ↦ absurd (cc (rw large at (rw (present, check_length) at h)))
    | inr fits ↦
        let same : k ≡ n = cc (rw fits at (rw (present, check_length) at h)) in
        (ground (arith, present, same), ground (arith, fits, same), same)
  ]
]

-- A length that `readFrameLength` accepts is positive and at most `kMaxFrameBytes`, and the prefix has at
-- least four bytes.
pub read_frame_length-fits :
    (prefix : Bytes) (n : ℕ)
    → read_frame_length prefix ≡ value n
    → (0 < n) × (n ≤ max_frame_bytes) × (4 ≤ length prefix)
unfolding read_frame_length
read_frame_length-fits (a ∷ b ∷ c ∷ d ∷ rest) n h =
    let (present, fits, same) = check_length-fits (a + b * 256 + c * 65536 + d * 16777216) n h in
    (present, fits, omega arith)
read_frame_length-fits [] n h = absurd (cc (h))
read_frame_length-fits (a ∷ []) n h = absurd (cc (h))
read_frame_length-fits (a ∷ b ∷ []) n h = absurd (cc (h))
read_frame_length-fits (a ∷ b ∷ c ∷ []) n h = absurd (cc (h))

prefix_sum :
    (n : ℕ)
    → n < 2 ^ 32
    → n % 256 + n / 256 % 256 * 256 + n / 65536 % 256 * 65536 + n / 16777216 % 256 * 16777216 ≡ n
prefix_sum n h = omega (arith, h)

check_length_fine : (n : ℕ) → 0 < n → n ≤ max_frame_bytes → check_length n ≡ value n
unfolding check_length
check_length_fine n present fits = ground (arith, present, fits)

length_present : (text : Bytes) → text ≢ [] → 0 < length text
length_present [] h = absurd (h refl)
length_present (b ∷ text) h = omega arith

frame_text-fits :
    (text framed : Bytes)
    → frame_text text ≡ value framed
    → (length text ≤ max_frame_bytes) × (framed ≡ prefix_of (length text) ++ text)
unfolding frame_text
frame_text-fits text framed h = elim (Bool-cases (ltb max_frame_bytes (length text))) [
  | inl large ↦ absurd (cc (rw (large, frame_text) at h))
  | inr fits ↦
      let whole : length text % 2 ^ 32 ≡ length text = ground (arith, fits) in
      (
        ground (arith, fits),
        sym (cc (rw (fits, frame_text) at h)) ∙ ap (λ n. prefix_of n ++ text) whole,
      )
]

-- What `frame` writes is the length of the text in four bytes and the text; `readFrameLength` reads the
-- length back from them, whatever follows.
pub read_frame_length-frame :
    {Json : Type 0} (T : JsonText Json) (faithful : IsFaithful T) (json : Json) (framed : Bytes)
    → frame T json ≡ value framed
    → (text : Bytes) × (framed ≡ prefix_of (length text) ++ text)
      × ((more : Bytes) → read_frame_length (prefix_of (length text) ++ more) ≡ value (length text))
      × (T.parse text ≡ value json)
unfolding frame read_frame_length
read_frame_length-frame {Json} T faithful json framed h = go (T.dump json) refl
  where
    go :
        (d : Bytes ⊎ Bytes)
        → T.dump json ≡ d
        → (text : Bytes) × (framed ≡ prefix_of (length text) ++ text)
          × ((more : Bytes)
              → read_frame_length (prefix_of (length text) ++ more) ≡ value (length text))
          × (T.parse text ≡ value json)
    go (inl what) failed = absurd (cc (rw (failed, frame) at h))
    go (inr text) dumped =
        let (fits, same) = frame_text-fits text framed (rw (dumped, frame) at h) in
        let present = length_present text (faithful.dump_present json text dumped) in
        (
          text,
          same,
          (λ more.
              rw (prefix_sum (length text) (omega (arith, fits)))
                (check_length_fine (length text) present fits)),
          faithful.parse-dump json text dumped,
        )
