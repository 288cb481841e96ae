-- ===== src/Remote/Stream/Laws.antt =====
-- loader/remote/stream.go: what the two ends make of a frame.
use egop.Prelude.{
  Text, length, In, here, there, ℕ, zero, suc, ◌/◌, ◌%◌, ◌≤◌, ◌<◌, ltb, if◌then◌else◌, Bool-cases,
  Option-cases, false, List, [], ◌∷◌, ◌++◌, append-nil, append_assoc, none, some, ◌≡◌, inl, inr,
  refl, sym, ap, ◌∙◌, arith,
}
use egop.Remote.Stream.{
  max_frame_size, put_u32, get_u32, encode, take_exact, received, ended, too_large, read_error,
  recv_body, recv, recv_all,
}

take_exact_all : (xs rest : Text) → take_exact (length xs) (xs ++ rest) ≡ some (xs, rest)
unfolding take_exact
take_exact_all [] rest = refl
take_exact_all (x ∷ xs) rest = rw (take_exact_all xs rest, take_exact) refl

take_exact_sound :
    (n : ℕ) (s front rest : Text)
    → take_exact n s ≡ some (front, rest)
    → (s ≡ front ++ rest) × (length front ≡ n)
unfolding take_exact
take_exact_sound zero s front rest e = ground arith
take_exact_sound (suc n) [] front rest e = cc
take_exact_sound (suc n) (c ∷ s) front rest e = elim (Option-cases (take_exact n s)) [
  | inl stuck ↦ let bad : none ≡ some (front, rest) = rw (stuck, take_exact) at e in cc
  | inr ((front', rest'), done) ↦
      let same : some (c ∷ front', rest') ≡ some (front, rest) = rw (done, take_exact) at e in
      let (whole, long) = take_exact_sound n s front' rest' done in ground (arith, whole, long)
]

word_round :
    (n : ℕ)
    → n < 4294967296
    → get_u32 (n / 16777216) (n / 65536 % 256) (n / 256 % 256) (n % 256) ≡ n
unfolding get_u32
word_round n small = omega arith

recv-encode :
    (frame rest : Text)
    → recv (encode frame ++ rest) ≡ recv_body (length frame % 4294967296) (frame ++ rest)
unfolding recv encode put_u32
recv-encode frame rest =
    ap (λ n. recv_body n (frame ++ rest)) (word_round (length frame % 4294967296) (omega arith))

-- A frame of at most 64 MiB that was sent is received as it was, and nothing of what follows it.
pub recv_sent :
    (frame rest : Text)
    → length frame ≤ max_frame_size
    → recv (encode frame ++ rest) ≡ received frame rest
unfolding recv_body
recv_sent frame rest short =
    let small : length frame % 4294967296 ≡ length frame = omega arith in
    let fits : ltb max_frame_size (length frame) ≡ false = ground arith in
    rw (recv-encode frame rest, small, recv_body, fits, take_exact_all frame rest) refl

-- Of what Send frames, Recv refuses exactly what is longer than 64 MiB: Send itself has no such test.
-- Beyond 32 bits the length prefix wraps, so the theorem stops there.
pub recv_bounded :
    (frame rest : Text)
    → length frame < 4294967296
    → recv (encode frame ++ rest) ≡ (
        if ltb max_frame_size (length frame)
        then too_large (frame ++ rest)
        else received frame rest)
unfolding recv_body
recv_bounded frame rest small = elim (Bool-cases (ltb max_frame_size (length frame))) [
  | inl long ↦
      let same : length frame % 4294967296 ≡ length frame = omega arith in
      rw (long, recv-encode frame rest, same, recv_body, long) refl
  | inr short ↦ rw short (recv_sent frame rest (ground arith))
]

-- Every frame of a run of frames, one after the other.
abbrev pub encode_all : List Text → Text
encode_all [] = []
encode_all (frame ∷ frames) = encode frame ++ encode_all frames

-- All frames are short enough.
abbrev pub AreShort : List Text → Type 0
AreShort frames = (frame : Text) → In frame frames → length frame ≤ max_frame_size

recv-nil : recv [] ≡ ended
unfolding recv read_error
recv-nil = refl

none_below : {n : ℕ} → n < 0 → ⊥
none_below lt = omega arith

-- What was sent frame by frame is received frame by frame, in the same order and with the same
-- bounds, and then the end of the stream.
pub recv_all_sent :
    (fuel : ℕ) (frames : List Text)
    → AreShort frames
    → length frames < fuel
    → recv_all fuel (encode_all frames) ≡ (frames, ended)
unfolding recv_all
recv_all_sent zero frames short few = elim (none_below few) [ ]
recv_all_sent (suc fuel) [] short few = rw (recv-nil, recv_all) refl
recv_all_sent (suc fuel) (frame ∷ frames) short few =
    rw
      (
        recv_sent frame (encode_all frames) (short frame here),
        recv_all,
        recv_all_sent fuel frames (λ f i. short f (there i)) (omega arith),
      )
      refl

body-received :
    (n : ℕ) (s frame rest : Text)
    → recv_body n s ≡ received frame rest
    → (n ≤ max_frame_size) × (take_exact n s ≡ some (frame, rest))
unfolding recv_body read_error
body-received n s frame rest e = elim (Bool-cases (ltb max_frame_size n)) [
  | inl long ↦ let bad : too_large s ≡ received frame rest = rw (long, recv_body) at e in cc
  | inr short ↦ elim (Option-cases (take_exact n s)) [
    | inl stuck ↦
        let bad : read_error s ≡ received frame rest = rw (short, stuck, recv_body) at e in
        elim (no_error s frame rest bad) [ ]
    | inr ((front, back), done) ↦
        let same : received front back ≡ received frame rest = rw (short, done, recv_body) at e in
        (ground arith, ground arith)
  ]
]
  where
    no_error : (s frame rest : Text) → read_error s ≡ received frame rest → ⊥
    no_error [] frame rest e = cc
    no_error (c ∷ s) frame rest e = cc

-- Nothing longer than 64 MiB is ever delivered, and a delivery takes four bytes and the frame, which
-- stand in the input as they are delivered.
pub recv_exact :
    (s frame rest : Text)
    → recv s ≡ received frame rest
    → (length frame ≤ max_frame_size)
      × (prefix : Text) × (length prefix ≡ 4)
      × (s ≡ prefix ++ (frame ++ rest))
unfolding recv read_error
recv_exact (a ∷ b ∷ c ∷ d ∷ s) frame rest e =
    let (short, taken) = body-received (get_u32 a b c d) s frame rest e in
    let (whole, long) = take_exact_sound (get_u32 a b c d) s frame rest taken in
    (omega arith, a ∷ b ∷ c ∷ d ∷ [], omega arith, rw whole refl)
recv_exact [] frame rest e = cc
recv_exact (a ∷ []) frame rest e = cc
recv_exact (a ∷ b ∷ []) frame rest e = cc
recv_exact (a ∷ b ∷ c ∷ []) frame rest e = cc

take_exact-append :
    (n : ℕ) (s more front rest : Text)
    → take_exact n s ≡ some (front, rest)
    → take_exact n (s ++ more) ≡ some (front, rest ++ more)
take_exact-append n s more front rest e =
    let (whole, long) = take_exact_sound n s front rest e in
    let shape : s ++ more ≡ front ++ (rest ++ more) =
      ap (λ t. t ++ more) whole ∙ append_assoc front rest more in
    rw (shape, ← long) (take_exact_all front (rest ++ more))

-- What is delivered does not hang on how much of the input has arrived: more input behind it joins
-- the rest.
pub recv_stable :
    (s more frame rest : Text)
    → recv s ≡ received frame rest
    → recv (s ++ more) ≡ received frame (rest ++ more)
unfolding recv recv_body read_error
recv_stable (a ∷ b ∷ c ∷ d ∷ s) more frame rest e =
    let (short, taken) = body-received (get_u32 a b c d) s frame rest e in
    let fits : ltb max_frame_size (get_u32 a b c d) ≡ false = ground arith in
    rw (fits, take_exact-append (get_u32 a b c d) s more frame rest taken) refl
recv_stable [] more frame rest e = cc
recv_stable (a ∷ []) more frame rest e = cc
recv_stable (a ∷ b ∷ []) more frame rest e = cc
recv_stable (a ∷ b ∷ c ∷ []) more frame rest e = cc

nil_right : (xs ys : Text) → [] ≡ xs ++ ys → ys ≡ []
nil_right [] ys e = sym e
nil_right (x ∷ xs) ys e = cc

-- A frame of which the last bytes are missing is not delivered, in no part.
pub recv_whole :
    (sent arrived absent frame rest : Text)
    → length sent ≤ max_frame_size
    → encode sent ≡ arrived ++ absent
    → recv arrived ≡ received frame rest
    → absent ≡ []
recv_whole sent arrived absent frame rest short cut e =
    let all_of_it : recv (encode sent ++ []) ≡ received sent [] = recv_sent sent [] short in
    let again : recv (arrived ++ absent) ≡ received frame (rest ++ absent) =
      recv_stable arrived absent frame rest e in
    let same : received sent [] ≡ received frame (rest ++ absent) =
      sym all_of_it ∙ rw (append-nil, cut) again in
    nil_right rest absent (cc)
