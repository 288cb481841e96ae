-- ===== src/Remote/Stream/Tests.antt =====
-- Frames of a few bytes.
use egop.Prelude.{
  Text, codes, length, In-cons_cases, ◌≤◌, List, [], ◌∷◌, ◌++◌, none, some, ◌≡◌, refl, inl, inr,
  arith,
}
use egop.Remote.Stream.{
  max_frame_size, put_u32, get_u32, encode, SendError, send_result, send, take_exact, received,
  ended, cut_short, too_large, read_error, recv_body, recv, recv_all,
}
use egop.Remote.Stream.Laws.{encode_all, AreShort, recv_all_sent, recv_exact}

abbrev ping : Text
ping = codes "ping"

sends_prefix : (send (λ buf. (length buf, none)) ping).0 ≡ 0 ∷ 0 ∷ 0 ∷ 4 ∷ ping
unfolding send encode put_u32
sends_prefix = refl

notes_short_write : (send (λ buf. (3, none)) ping).1 ≡ some SendError.short_write
unfolding send send_result encode put_u32
notes_short_write = refl

waits_for_rest : recv (0 ∷ 0 ∷ 0 ∷ 4 ∷ codes "pin") ≡ cut_short
unfolding recv recv_body get_u32 take_exact read_error
waits_for_rest = refl

refuses_long : recv (4 ∷ 0 ∷ 0 ∷ 1 ∷ ping) ≡ too_large ping
unfolding recv recv_body get_u32 take_exact
refuses_long = refl

takes_first : recv (0 ∷ 0 ∷ 0 ∷ 1 ∷ ping) ≡ received (codes "p") (codes "ing")
unfolding recv recv_body get_u32 take_exact
takes_first = refl

abbrev frames : List Text
frames = ping ∷ [] ∷ codes "a" ∷ []

frames_short : AreShort frames
frames_short frame i = elim (In-cons_cases i) [
  | inl e ↦ rw e (omega arith)
  | inr i' ↦ elim (In-cons_cases i') [
    | inl e ↦ rw e (omega arith)
    | inr i'' ↦ elim (In-cons_cases i'') [
      | inl e ↦ rw e (omega arith)
      | inr none_left ↦ elim none_left [ ]
    ]
  ]
]

recv_all_sent_example : recv_all 4 (encode_all frames) ≡ (frames, ended)
recv_all_sent_example = recv_all_sent 4 frames frames_short (omega arith)

recv_exact_example :
    (length (codes "p") ≤ max_frame_size)
    × (prefix : Text) × (length prefix ≡ 4)
    × (0 ∷ 0 ∷ 0 ∷ 1 ∷ ping ≡ prefix ++ (codes "p" ++ codes "ing"))
recv_exact_example = recv_exact (0 ∷ 0 ∷ 0 ∷ 1 ∷ ping) (codes "p") (codes "ing") takes_first
