-- ===== src/Terminal/Frames.antt =====
-- ui/src/hooks/useTerminalConnection.ts, lines 8 to 18: typed text becomes frames for the socket.
-- A string is the list of its code points (no lone surrogates), a frame the list of its bytes.
use opsup.Prelude.{
  ℕ, zero, suc, ◌+◌, ◌*◌, ◌/◌, ◌%◌, ◌≤◌, ◌<◌, ◌≡◌, refl, ap, sym, ◌∙◌, List, [], ◌∷◌, ◌++◌,
  append_assoc, arith, ltb, if◌then◌else◌, length, take, drop, length-take, length-drop,
  take-append-drop, drop-drop, drop_all, All, inl, inr, Bool-cases, ltb→lt,
}

abbrev pub Frame : Type 0
Frame = List ℕ

-- `const INPUT_CHUNK_BYTES = 16 * 1024`
abbrev pub input_chunk_bytes : ℕ
input_chunk_bytes = 16 * 1024

-- The UTF-8 bytes of one code point.
pub encode_point : ℕ → List ℕ
encode_point c =
    if ltb c 0x80
    then c ∷ []
    else if ltb c 0x800
    then (0xc0 + c / 64) ∷ (0x80 + c % 64) ∷ []
    else if ltb c 0x10000
    then (0xe0 + c / 4096) ∷ (0x80 + (c / 64) % 64) ∷ (0x80 + c % 64) ∷ []
    else (0xf0 + c / 262144)
      ∷ (0x80 + (c / 4096) % 64)
      ∷ (0x80 + (c / 64) % 64)
      ∷ (0x80 + c % 64)
      ∷ []

-- `new TextEncoder().encode(text)`
unfoldable pub encode : List ℕ → List ℕ
unfolding encode_point
encode [] = []
encode (c ∷ cs) = encode_point c ++ encode cs

-- The loop of `inputFrames` from `offset` on, in chunks of `chunk` bytes; each round has one fuel.
frames_from : ℕ → ℕ → ℕ → List ℕ → List Frame
frames_from zero chunk offset bytes = []
frames_from (suc fuel) chunk offset bytes =
    let rest = frames_from fuel chunk (offset + chunk) bytes in
    if ltb offset (length bytes) then (0 ∷ take chunk (drop offset bytes)) ∷ rest else []

-- No round of the loop is empty, so there are at most as many rounds as bytes.
unfoldable pub input_frames : List ℕ → List Frame
unfolding frames_from
input_frames text = let bytes = encode text in frames_from (length bytes) input_chunk_bytes 0 bytes

-- What the server reads from a stream of frames as keystrokes: the payloads of the frames of type 0.
unfoldable pub keystrokes : List Frame → List ℕ
keystrokes [] = []
keystrokes ((zero ∷ payload) ∷ fs) = payload ++ keystrokes fs
keystrokes (_ ∷ fs) = keystrokes fs

pub keystrokes-append :
    (fs gs : List Frame) → keystrokes (fs ++ gs) ≡ keystrokes fs ++ keystrokes gs
unfolding keystrokes
keystrokes-append [] gs = refl
keystrokes-append ([] ∷ fs) gs = keystrokes-append fs gs
keystrokes-append ((zero ∷ p) ∷ fs) gs =
    ap (◌++◌ p) (keystrokes-append fs gs) ∙ sym (append_assoc p (keystrokes fs) (keystrokes gs))
keystrokes-append ((suc t ∷ p) ∷ fs) gs = keystrokes-append fs gs

-- A frame of keystrokes: type 0, and a payload that is neither empty nor longer than a chunk.
abbrev pub IsInputFrame : ℕ → Frame → Type 0
IsInputFrame chunk [] = ⊥
IsInputFrame chunk (t ∷ payload) = (t ≡ 0) × (0 < length payload) × (length payload ≤ chunk)

module _ (chunk : ℕ) (pos : 0 < chunk) (bytes : List ℕ) where
  frames_from-keystrokes :
      (fuel offset : ℕ)
      → length bytes ≤ offset + fuel
      → keystrokes (frames_from fuel chunk offset bytes) ≡ drop offset bytes
  unfolding frames_from keystrokes
  frames_from-keystrokes zero offset h = sym (drop_all offset bytes (omega arith))
  frames_from-keystrokes (suc fuel) offset h = elim (Bool-cases (ltb offset (length bytes))) [
    | inl more ↦ rw more (
        ap (◌++◌ (take chunk (drop offset bytes))) (
          frames_from-keystrokes fuel (offset + chunk) (omega arith)
          ∙ sym (drop-drop offset chunk bytes))
        ∙ take-append-drop chunk (drop offset bytes))
    | inr done ↦ rw done (sym (drop_all offset bytes (ground arith)))
  ]

  frames_from-IsInputFrame :
      (fuel offset : ℕ) → All (IsInputFrame chunk) (frames_from fuel chunk offset bytes)
  unfolding frames_from
  frames_from-IsInputFrame zero offset = tt
  frames_from-IsInputFrame (suc fuel) offset = elim (Bool-cases (ltb offset (length bytes))) [
    | inl more ↦ rw more (
      (
        refl,
        omega (
          arith,
          ltb→lt offset (length bytes) more,
          length-take chunk (drop offset bytes),
          length-drop offset bytes,
        ),
        omega (arith, length-take chunk (drop offset bytes)),
      ),
      frames_from-IsInputFrame fuel (offset + chunk),
    )
    | inr done ↦ rw done tt
  ]

-- The frames of a text carry its UTF-8 bytes, all of them and in order.
pub keystrokes-input_frames : (text : List ℕ) → keystrokes (input_frames text) ≡ encode text
unfolding input_frames
keystrokes-input_frames text =
    frames_from-keystrokes input_chunk_bytes (omega arith) (encode text) (length (encode text)) 0
      (omega arith)

-- Every frame of a text has type 0 and a payload of 1 to 16384 bytes.
pub input_frames-IsInputFrame :
    (text : List ℕ) → All (IsInputFrame input_chunk_bytes) (input_frames text)
unfolding input_frames
input_frames-IsInputFrame text =
    frames_from-IsInputFrame input_chunk_bytes (omega arith) (encode text) (length (encode text)) 0
