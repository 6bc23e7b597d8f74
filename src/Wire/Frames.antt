-- ===== src/Wire/Frames.antt =====
-- `encodeFrame` and the loop of `FrameDecoder.push`, which both decoders have. They differ in the
-- bound on the buffer, which the configuration contracts add, and in what they have cut off the
-- buffer when a body is no JSON. `JSON.stringify` and `JSON.parse`, with the conversions to bytes,
-- are parameters.
use nancy_man.Base.{
  ℕ, zero, suc, ◌+◌, List, [], ◌∷◌, ◌++◌, Option, some, none, Result, ok, err, ◌>>=◌, ltb, length,
  take, drop, if◌then◌else◌, is_empty,
}
use nancy_man.Wire.Bytes.{Bytes, header, read_size}

pub data FrameError : Type 0 where
  frame_too_large frame_invalid_json buffer_too_large trailing_bytes : FrameError

abbrev pub max_frame_bytes : ℕ
max_frame_bytes = 1048576

abbrev pub max_buffer_bytes : ℕ
max_buffer_bytes = 4194304

-- A frame with the given body.
abbrev pub frame : Bytes → Bytes
frame body = header (length body) ++ body

unfoldable pub encode_frame : {V : Type 0} → (V → Bytes) → V → Result FrameError Bytes
encode_frame stringify value =
    if ltb max_frame_bytes (length (stringify value))
    then err frame_too_large
    else ok (frame (stringify value))

-- The frames of a list of values, one after the other.
unfoldable pub encode_all : {V : Type 0} → (V → Bytes) → List V → Result FrameError Bytes
unfolding encode_frame
encode_all stringify [] = ok []
encode_all stringify (value ∷ values) = do
  bytes ← encode_frame stringify value
  rest ← encode_all stringify values
  ok (bytes ++ rest)

-- What one round of the loop does: leave it, throw with a buffer left, or go on with a value and
-- the rest of the buffer.
pub data Round (V : Type 0) : Type 0 where
  halt : Round V
  fail : FrameError → Bytes → Round V
  next : V → Bytes → Round V

-- What a call of `push` ends in: the values, or an error, and the buffer that the decoder keeps.
-- The loop never answers `stuck`, which stands for running out of fuel.
pub data Pushed (V : Type 0) : Type 0 where
  decoded : List V → Bytes → Pushed V
  failed : FrameError → Bytes → Pushed V
  stuck : Pushed V

abbrev pub parsed : {V : Type 0} → Bytes → Bytes → Option V → Round V
parsed left rest none = fail frame_invalid_json left
parsed left rest (some value) = next value rest

abbrev pub prepend : {V : Type 0} → List V → Pushed V → Pushed V
prepend values (decoded more buffer) = decoded (values ++ more) buffer
prepend values (failed e buffer) = failed e buffer
prepend values stuck = stuck

-- What goes on with the buffer that a call of `push` leaves.
abbrev pub after : {V : Type 0} → (Bytes → Pushed V) → Pushed V → Pushed V
after on (decoded values buffer) = prepend values (on buffer)
after on (failed e buffer) = failed e buffer
after on stuck = stuck

module _ {V : Type 0} (parse : Bytes → Option V) where
  -- `left` is what stays in the buffer when the body is no JSON, from the buffer and its rest.
  unfoldable pub round : (Bytes → Bytes → Bytes) → Bytes → Round V
  round left buffer =
      if ltb (length buffer) 4
      then halt
      else if ltb max_frame_bytes (read_size buffer)
      then fail frame_too_large buffer
      else if ltb (length buffer) (read_size buffer + 4)
      then halt
      else parsed (left buffer (drop (read_size buffer + 4) buffer))
          (drop (read_size buffer + 4) buffer) (parse (take (read_size buffer) (drop 4 buffer)))

  unfoldable pub drain : (Bytes → Bytes → Bytes) → ℕ → Bytes → List V → Pushed V
  drain left zero buffer values = stuck
  drain left (suc fuel) buffer values = elim (round left buffer) [
    | halt ↦ decoded values buffer
    | fail e buffer' ↦ failed e buffer'
    | next value rest ↦ drain left fuel rest (values ++ value ∷ [])
  ]

  -- `push` of the SQL worker: the buffer is cut before the body is parsed.
  unfoldable pub push : Bytes → Bytes → Pushed V
  unfolding drain round
  push buffer chunk =
      drain (λ buffer rest. rest) (suc (length (buffer ++ chunk))) (buffer ++ chunk) []

  -- A decoder that is handed one chunk after the other.
  abbrev pub receive : Bytes → List Bytes → Pushed V
  receive buffer [] = decoded [] buffer
  receive buffer (chunk ∷ chunks) = after (λ b. receive b chunks) (push buffer chunk)

  -- `push` of the configuration contracts: a bound on the buffer, which is cut after the parse.
  unfoldable pub push_bounded : Bytes → Bytes → Pushed V
  unfolding drain round
  push_bounded buffer chunk =
      if ltb max_buffer_bytes (length buffer + length chunk)
      then failed buffer_too_large buffer
      else drain (λ buffer rest. buffer) (suc (length (buffer ++ chunk))) (buffer ++ chunk) []

  -- `finish`, on the decoder that `push` has left, which is never `stuck`.
  abbrev pub finish : Pushed V → Result FrameError (List V)
  finish (decoded values buffer) = if is_empty buffer then ok values else err trailing_bytes
  finish (failed e buffer) = err e
  finish stuck = err trailing_bytes

  unfoldable pub decode_frames : Bytes → Result FrameError (List V)
  unfolding push_bounded
  decode_frames buffer = finish (push_bounded [] buffer)
