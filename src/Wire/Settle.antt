-- ===== src/Wire/Settle.antt =====
-- The decoders on any input: they end, and what they keep is less than one frame.
use nancy_man.Base.{
  ℕ, zero, suc, ◌+◌, ◌<◌, List, [], ◌∷◌, ◌++◌, Option, some, none, ltb, length, drop, length-drop,
  take, arith, Bool-cases, inl, inr,
}
use nancy_man.Wire.Bytes.{Bytes, read_size}
use nancy_man.Wire.Frames.{
  max_frame_bytes, max_buffer_bytes, Round, halt, fail, next, Pushed, decoded, failed, stuck,
  parsed, round, drain, push, push_bounded,
}

-- A decoder that has ended: it has thrown, or it keeps less than a frame of the largest size.
abbrev pub IsSettled : {V : Type 0} → Pushed V → Type 0
IsSettled (decoded values kept) = length kept < max_frame_bytes + 4
IsSettled (failed e kept) = Unit
IsSettled stuck = ⊥

-- What a round may do to a buffer.
abbrev Shrinks : {V : Type 0} → Bytes → Round V → Type 0
Shrinks buffer halt = length buffer < max_frame_bytes + 4
Shrinks buffer (fail e kept) = Unit
Shrinks buffer (next value rest) = length rest < length buffer

parsed-Shrinks :
    {V : Type 0} (buffer left rest : Bytes) (body : Option V)
    → length rest < length buffer
    → Shrinks buffer (parsed left rest body)
parsed-Shrinks buffer left rest none h = tt
parsed-Shrinks buffer left rest (some value) h = h

round-Shrinks :
    {V : Type 0} (parse : Bytes → Option V) (left : Bytes → Bytes → Bytes) (buffer : Bytes)
    → Shrinks buffer (round parse left buffer)
unfolding round
round-Shrinks parse left buffer =
    let n = read_size buffer in
    let rest = drop (n + 4) buffer in
    let full = parsed-Shrinks buffer (left buffer rest) rest (parse (take n (drop 4 buffer))) in
    elim (Bool-cases (ltb (length buffer) 4)) [
      | inl tiny ↦ rw tiny (ground arith)
      | inr some_header ↦ elim (Bool-cases (ltb max_frame_bytes n)) [
        | inl large ↦ rw (some_header, large) tt
        | inr fits ↦ elim (Bool-cases (ltb (length buffer) (n + 4))) [
          | inl part ↦ rw (some_header, fits, part) (ground arith)
          | inr whole ↦
              rw (some_header, fits, whole) (full (ground (arith, length-drop (n + 4) buffer)))
        ]
      ]
    ]

-- One round more than the bytes of the buffer is enough.
drain-IsSettled :
    {V : Type 0} (parse : Bytes → Option V) (left : Bytes → Bytes → Bytes) (fuel : ℕ)
    (buffer : Bytes) (values : List V)
    → length buffer < fuel
    → IsSettled (drain parse left fuel buffer values)
unfolding drain
drain-IsSettled parse left zero buffer values h = absurd (omega arith)
drain-IsSettled parse left (suc fuel) buffer values h =
    elim (round parse left buffer)
        as (λ r.
          Shrinks buffer r
          → IsSettled (elim r [
            | halt ↦ decoded values buffer
            | fail e buffer' ↦ failed e buffer'
            | next value rest ↦ drain parse left fuel rest (values ++ value ∷ [])
          ])) [
            | halt ↦ λ s. s
            | fail e kept ↦ λ s. tt
            | next value rest ↦
                λ s. drain-IsSettled parse left fuel rest (values ++ value ∷ []) (omega arith)
          ]
      (round-Shrinks parse left buffer)

-- On every input `push` returns or throws, and when it returns it keeps less than one frame of the
-- largest size.
pub push-IsSettled :
    {V : Type 0} (parse : Bytes → Option V) (buffer chunk : Bytes)
    → IsSettled (push parse buffer chunk)
unfolding push
push-IsSettled parse buffer chunk =
    drain-IsSettled parse (λ buffer rest. rest) (suc (length (buffer ++ chunk))) (buffer ++ chunk)
      [] (omega arith)

pub push_bounded-IsSettled :
    {V : Type 0} (parse : Bytes → Option V) (buffer chunk : Bytes)
    → IsSettled (push_bounded parse buffer chunk)
unfolding push_bounded
push_bounded-IsSettled parse buffer chunk =
    elim (Bool-cases (ltb max_buffer_bytes (length buffer + length chunk))) [
      | inl large ↦ rw large tt
      | inr fits ↦ rw fits (
          drain-IsSettled parse (λ buffer rest. buffer) (suc (length (buffer ++ chunk)))
            (buffer ++ chunk) [] (omega arith))
    ]
