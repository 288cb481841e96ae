-- ===== src/Remote/Stream.antt =====
-- loader/remote/stream.go: frames with a length prefix of four bytes on a byte stream. A connection's
-- input is the bytes that it still delivers before its end; what a Write of the connection answers is
-- an argument of `send`.
pub mod Laws
mod Tests
use egop.Prelude.{
  Text, length, ℕ, zero, suc, ◌+◌, ◌*◌, ◌/◌, ◌%◌, ◌^◌, ◌==◌, ltb, if◌then◌else◌, List, [], ◌∷◌,
  ◌++◌, Option, none, some, not, Bool,
}

-- 64 << 20
abbrev pub max_frame_size : ℕ
max_frame_size = 67108864

-- binary.BigEndian.PutUint32 of a number below 2 ^ 32.
unfoldable pub put_u32 : ℕ → Text
put_u32 n = n / 16777216 ∷ n / 65536 % 256 ∷ n / 256 % 256 ∷ n % 256 ∷ []

-- binary.BigEndian.Uint32
unfoldable pub get_u32 : ℕ → ℕ → ℕ → ℕ → ℕ
get_u32 a b c d = a * 16777216 + b * 65536 + c * 256 + d

-- The buffer that Send writes; `uint32(len(data))` wraps.
unfoldable pub encode : Text → Text
encode data' = put_u32 (length data' % 4294967296) ++ data'

pub data SendError : Type 0 where
  write_failed : Text → SendError
  short_write : SendError

-- What a Write answers: the bytes taken and the error.
unfoldable pub send_result : ℕ → Option Text → Text → Option SendError
send_result n (some e) buf = some (write_failed e)
send_result n none buf = if not (n == length buf) then some short_write else none

-- Send: the buffer handed to the connection, and the result of its Write.
unfoldable pub send : (Text → ℕ × Option Text) → Text → Text × Option SendError
send write data' =
    (encode data', send_result (write (encode data')).0 (write (encode data')).1 (encode data'))

-- The first n bytes, and the rest, where there are n.
unfoldable pub take_exact : ℕ → Text → Option (Text × Text)
take_exact zero s = some ([], s)
take_exact (suc n) [] = none
take_exact (suc n) (c ∷ s) = elim (take_exact n s) [
  | none ↦ none
  | some (front, rest) ↦ some (c ∷ front, rest)
]

-- What Recv answers, with the input left where a frame or its prefix was read.
pub data Received : Type 0 where
  received : Text → Text → Received
  ended cut_short : Received
  too_large : Text → Received

-- The error of io.ReadFull on an input that is too short.
unfoldable pub read_error : Text → Received
read_error [] = ended
read_error (c ∷ s) = cut_short

unfoldable pub recv_body : ℕ → Text → Received
recv_body n s =
    if ltb max_frame_size n
    then too_large s
    else elim (take_exact n s) [ none ↦ read_error s | some (front, rest) ↦ received front rest ]

unfoldable pub recv : Text → Received
recv (a ∷ b ∷ c ∷ d ∷ s) = recv_body (get_u32 a b c d) s
recv s = read_error s

-- Recv until it fails, as recvLoop calls it: the frames, and the last answer.
unfoldable pub recv_all : ℕ → Text → List Text × Received
recv_all zero s = ([], ended)
recv_all (suc fuel) s = elim (recv s) [
  | received frame rest ↦ let (frames, last) = recv_all fuel rest in (frame ∷ frames, last)
  | ended ↦ ([], ended)
  | cut_short ↦ ([], cut_short)
  | too_large rest ↦ ([], too_large rest)
]
