-- ===== src/Wire/Tests.antt =====
-- A codec whose values are their own bodies, and two frames that arrive in three chunks.
use nancy_man.Base.{List, [], ◌∷◌, Option, some, ◌≡◌, refl, ok, err, flatten}
use nancy_man.Wire.Bytes.{Bytes, header, read_size}
use nancy_man.Wire.Frames.{
  encode_frame, encode_all, decoded, failed, push, decode_frames, receive, trailing_bytes,
  frame_too_large,
}
use nancy_man.Wire.Stream.{receive-encode_all}
use nancy_man.Wire.Settle.{IsSettled, push-IsSettled}

abbrev as_body : Bytes → Bytes
as_body value = value

abbrev from_body : Bytes → Option Bytes
from_body body = some body

abbrev two_values : List Bytes
two_values = (7 ∷ 8 ∷ []) ∷ (9 ∷ []) ∷ []

abbrev three_chunks : List Bytes
three_chunks = (0 ∷ 0 ∷ 0 ∷ []) ∷ (2 ∷ 7 ∷ 8 ∷ 0 ∷ 0 ∷ []) ∷ (0 ∷ 1 ∷ 9 ∷ []) ∷ []

two_encoded : encode_all as_body two_values ≡ ok (flatten three_chunks)
unfolding encode_all encode_frame header
two_encoded = refl

receive-encode_all_example : receive from_body [] three_chunks ≡ decoded two_values []
receive-encode_all_example =
    receive-encode_all as_body from_body (λ v. refl) two_values three_chunks two_encoded

decodes_whole : decode_frames from_body (flatten three_chunks) ≡ ok two_values
unfolding decode_frames read_size
decodes_whole = refl

refuses_part : decode_frames from_body (0 ∷ 0 ∷ 0 ∷ 2 ∷ 7 ∷ []) ≡ err trailing_bytes
unfolding decode_frames read_size
refuses_part = refl

refuses_large :
    push from_body [] (255 ∷ 0 ∷ 0 ∷ 0 ∷ []) ≡ failed frame_too_large (255 ∷ 0 ∷ 0 ∷ 0 ∷ [])
unfolding push read_size
refuses_large = refl

push-IsSettled_example : IsSettled (push from_body (0 ∷ 0 ∷ []) (0 ∷ 2 ∷ 7 ∷ []))
push-IsSettled_example = push-IsSettled from_body (0 ∷ 0 ∷ []) (0 ∷ 2 ∷ 7 ∷ [])
