-- ===== src/Wire/Stream.antt =====
-- A stream of frames cut into chunks of any size, and what a decoder keeps of it.
use nancy_man.Base.{
  ℕ, zero, suc, ◌+◌, ◌≤◌, ◌<◌, true, false, List, [], ◌∷◌, ◌++◌, Option, some, Result, ok, ◌≡◌,
  refl, sym, ap, ◌∙◌, ltb, length, length-append, append_assoc, append-nil, take, drop, take-length,
  drop-length, append-split, flatten, arith, Bool-cases, inl, inr, ◌>>=◌, >>=-eq-ok, ok-injective,
}
use nancy_man.Wire.Bytes.{Bytes, header, read_size, length-header, read_size-header}
use nancy_man.Wire.Frames.{
  FrameError, max_frame_bytes, max_buffer_bytes, frame, encode_frame, encode_all, halt, fail, next,
  Pushed, decoded, failed, parsed, receive, after, prepend, round, drain, push, push_bounded,
  decode_frames, finish,
}

length-frame : (body : Bytes) → length (frame body) ≡ length body + 4
length-frame body =
    omega (arith, length-append (header (length body)) body, length-header (length body))

ltb-false : (a b : ℕ) → b ≤ a → ltb a b ≡ false
ltb-false a b h = ground arith

ltb-lt : (a b : ℕ) → ltb a b ≡ true → a < b
ltb-lt a b h = ground arith

ltb-true : (a b : ℕ) → a < b → ltb a b ≡ true
ltb-true a b h = ground arith

-- The round on a buffer that holds a frame with `n` bytes.
round-full :
    {V : Type 0} (parse : Bytes → Option V) (left : Bytes → Bytes → Bytes)
    (buffer body rest : Bytes) (n : ℕ)
    → read_size buffer ≡ n
    → n ≤ max_frame_bytes
    → n + 4 ≤ length buffer
    → drop (n + 4) buffer ≡ rest
    → take n (drop 4 buffer) ≡ body
    → round parse left buffer ≡ parsed (left buffer rest) rest (parse body)
unfolding round
round-full parse left buffer body rest n size fits long behind inner =
    let some_header = ltb-false (length buffer) 4 (omega arith) in
    let small = ltb-false max_frame_bytes n fits in
    let complete = ltb-false (length buffer) (n + 4) long in
    rw (some_header, size, small, complete, behind, inner)

-- A whole frame at the front of the buffer.
round-frame :
    {V : Type 0} (parse : Bytes → Option V) (left : Bytes → Bytes → Bytes) (body rest : Bytes)
    → length body ≤ max_frame_bytes
    → round parse left (frame body ++ rest)
      ≡ parsed (left (frame body ++ rest) rest) rest (parse body)
round-frame parse left body rest fits =
    let buffer = frame body ++ rest in
    let split = append_assoc (header (length body)) body rest in
    let size : read_size buffer ≡ length body =
      ap read_size split ∙ read_size-header (length body) (body ++ rest) (omega arith) in
    let long : length buffer ≡ length body + 4 + length rest =
      omega (arith, length-append (frame body) rest, length-frame body) in
    let behind : drop (length body + 4) buffer ≡ rest =
      ap (λ n. drop n buffer) (sym (length-frame body)) ∙ drop-length (frame body) rest in
    let inner : take (length body) (drop 4 buffer) ≡ body =
      ap (λ q. take (length body) (drop 4 q)) split
      ∙ ap (λ q. take (length body) (drop q (header (length body) ++ (body ++ rest))))
          (sym (length-header (length body)))
      ∙ ap (take (length body)) (drop-length (header (length body)) (body ++ rest))
      ∙ take-length body rest in
    round-full parse left buffer body rest (length body) size fits (omega arith) behind inner

-- A part of a frame at the front of the buffer, and nothing behind it.
round-part :
    {V : Type 0} (parse : Bytes → Option V) (left : Bytes → Bytes → Bytes)
    (buffer body rest more : Bytes)
    → length body ≤ max_frame_bytes
    → buffer ++ rest ≡ frame body ++ more
    → length buffer < length body + 4
    → round parse left buffer ≡ halt
unfolding round
round-part parse left buffer body rest more fits whole short =
    elim (Bool-cases (ltb (length buffer) 4)) [
      | inl tiny ↦ rw tiny
      | inr some_header ↦
          let (back, cut, _) =
            append-split (header (length body)) buffer rest (body ++ more)
              (whole ∙ append_assoc (header (length body)) body more)
              (ground (arith, length-header (length body))) in
          let size : read_size buffer ≡ length body =
            ap read_size cut ∙ read_size-header (length body) back (omega arith) in
          let small = ltb-false max_frame_bytes (length body) fits in
          let incomplete = ltb-true (length buffer) (length body + 4) short in
          rw (some_header, size, small, incomplete)
    ]

drain-halt :
    {V : Type 0} (parse : Bytes → Option V) (left : Bytes → Bytes → Bytes) (fuel : ℕ)
    (buffer : Bytes) (values : List V)
    → round parse left buffer ≡ halt
    → drain parse left (suc fuel) buffer values ≡ decoded values buffer
unfolding drain
drain-halt parse left fuel buffer values h = rw (h, drain)

drain-next :
    {V : Type 0} (parse : Bytes → Option V) (left : Bytes → Bytes → Bytes) (fuel : ℕ)
    (buffer rest : Bytes) (value : V) (values : List V)
    → round parse left buffer ≡ next value rest
    → drain parse left (suc fuel) buffer values ≡ drain parse left fuel rest (values ++ value ∷ [])
unfolding drain
drain-next parse left fuel buffer rest value values h = rw (h, drain)

drain-fail :
    {V : Type 0} (parse : Bytes → Option V) (left : Bytes → Bytes → Bytes) (fuel : ℕ)
    (buffer kept : Bytes) (e : FrameError) (values : List V)
    → round parse left buffer ≡ fail e kept
    → drain parse left (suc fuel) buffer values ≡ failed e kept
unfolding drain
drain-fail parse left fuel buffer kept e values h = rw (h, drain)

round-empty :
    {V : Type 0} (parse : Bytes → Option V) (left : Bytes → Bytes → Bytes)
    → round parse left [] ≡ halt
unfolding round
round-empty parse left = refl

part-not_last :
    (buffer rest body more : Bytes)
    → buffer ++ rest ≡ frame body ++ more
    → length buffer < length body + 4
    → 0 < length rest
part-not_last buffer rest body more e short = omega (
  arith,
  ap length e,
  length-append buffer rest,
  length-append (frame body) more,
  length-frame body,
)

-- What the loop does with the front of a stream of frames: it decodes the whole frames, and what it
-- keeps is the front of the stream of the others, of which none is whole.
module _ {V : Type 0} (stringify : V → Bytes) (parse : Bytes → Option V)
    (parse-stringify : (v : V) → parse (stringify v) ≡ some v) where
  abbrev pub stream : List V → Bytes
  stream [] = []
  stream (v ∷ vs) = frame (stringify v) ++ stream vs

  abbrev pub Fits : List V → Type 0
  Fits [] = Unit
  Fits (v ∷ vs) = (length (stringify v) ≤ max_frame_bytes) × Fits vs

  record Drains (left : Bytes → Bytes → Bytes) (fuel : ℕ) (buffer rest : Bytes) (values us : List V)
      : Type 0 where
    now : List V
    later : List V
    kept : Bytes
    all_values : us ≡ now ++ later
    drains : drain parse left fuel buffer values ≡ decoded (values ++ now) kept
    still : kept ++ rest ≡ stream later
    fit : Fits later
    ends : rest ≡ [] → later ≡ []

  drain-stream :
      (left : Bytes → Bytes → Bytes) (fuel : ℕ) (buffer rest : Bytes) (values us : List V)
      → Fits us
      → buffer ++ rest ≡ stream us
      → length buffer < fuel
      → Drains left fuel buffer rest values us
  drain-stream left zero buffer rest values us fits e h = absurd (omega arith)
  drain-stream left (suc fuel) [] rest values [] fits e h = record {
    now = [];
    later = [];
    kept = [];
    all_values = refl;
    drains =
        drain-halt parse left fuel [] values (round-empty parse left)
        ∙ ap (λ q. decoded q []) (sym (append-nil values));
    still = e;
    fit = fits;
    ends = λ _. refl;
  }
  drain-stream left (suc fuel) (b ∷ buffer) rest values [] fits e h = absurd (ground arith)
  drain-stream left (suc fuel) buffer rest values (v ∷ us) fits e h =
      elim (Bool-cases (ltb (length buffer) (length (stringify v) + 4))) [
        | inl short ↦
            let halts =
              round-part parse left buffer (stringify v) rest (stream us) fits.0 e (ground arith) in
            record {
              now = [];
              later = v ∷ us;
              kept = buffer;
              all_values = refl;
              drains =
                  drain-halt parse left fuel buffer values halts
                  ∙ ap (λ q. decoded q buffer) (sym (append-nil values));
              still = e;
              fit = fits;
              ends = λ none_left. absurd (
                  omega (
                    arith,
                    ap length none_left,
                    part-not_last buffer rest (stringify v) (stream us) e
                        (ltb-lt (length buffer) (length (stringify v) + 4) short),
                  ));
            }
        | inr whole ↦
            let (back, cut, join) =
              append-split (frame (stringify v)) buffer rest (stream us) e
                (ground (arith, length-frame (stringify v))) in
            let goes : round parse left buffer ≡ next v back =
              ap (round parse left) cut
              ∙ round-frame parse left (stringify v) back fits.0
              ∙ ap (parsed (left (frame (stringify v) ++ back) back) back) (parse-stringify v) in
            let more = drain-stream left fuel back rest (values ++ v ∷ []) us fits.1 join (
              omega (
                arith,
                ap length cut,
                length-append (frame (stringify v)) back,
                length-frame (stringify v),
              )) in
            record {
              now = v ∷ more.now;
              later = more.later;
              kept = more.kept;
              all_values = ap (λ q. v ∷ q) more.all_values;
              drains =
                  drain-next parse left fuel buffer back v values goes
                  ∙ more.drains
                  ∙ ap (λ q. decoded q more.kept) (append_assoc values (v ∷ []) more.now);
              still = more.still;
              fit = more.fit;
              ends = more.ends;
            }
      ]

  pub receive-stream :
      (chunks : List Bytes) (buffer : Bytes) (us : List V)
      → Fits us
      → buffer ++ flatten chunks ≡ stream us
      → (flatten chunks ≡ [] → us ≡ [])
      → receive parse buffer chunks ≡ decoded us []
  unfolding push
  receive-stream [] buffer us fits e ends =
      let none_left = ends refl in
      let empty = sym (append-nil buffer) ∙ e ∙ ap stream none_left in
      ap (λ b. decoded [] b) empty ∙ ap (λ q. decoded q []) (sym none_left)
  receive-stream (chunk ∷ chunks) buffer us fits e ends =
      let d =
        drain-stream (λ buffer rest. rest) (suc (length (buffer ++ chunk))) (buffer ++ chunk)
          (flatten chunks) [] us fits (append_assoc buffer chunk (flatten chunks) ∙ e)
          (omega arith) in
      ap (after (λ b. receive parse b chunks)) d.drains
      ∙ ap (prepend d.now) (receive-stream chunks d.kept d.later d.fit d.still d.ends)
      ∙ ap (λ q. decoded q []) (sym d.all_values)

  encode_frame-frame :
      (v : V) (bytes : Bytes)
      → encode_frame stringify v ≡ ok bytes
      → (length (stringify v) ≤ max_frame_bytes) × (bytes ≡ frame (stringify v))
  unfolding encode_frame
  encode_frame-frame v bytes h = elim (Bool-cases (ltb max_frame_bytes (length (stringify v)))) [
    | inl large ↦ absurd (ground arith)
    | inr fits ↦ (ground arith, sym (ok-injective (frame (stringify v)) bytes (rw fits at h)))
  ]

  encode_all-stream :
      (vs : List V) (bytes : Bytes)
      → encode_all stringify vs ≡ ok bytes
      → Fits vs × (bytes ≡ stream vs)
  unfolding encode_all
  encode_all-stream [] bytes h = (tt, sym (ok-injective [] bytes h))
  encode_all-stream (v ∷ vs) bytes h =
      let (first, went, h') =
        >>=-eq-ok (encode_frame stringify v)
          (λ b. encode_all stringify vs >>= λ rest. ok (b ++ rest)) h in
      let (others, went', h'') =
        >>=-eq-ok (encode_all stringify vs) (λ rest. ok (first ++ rest)) h' in
      let (fits, is_frame) = encode_frame-frame v first went in
      let (fit, is_stream) = encode_all-stream vs others went' in
      (
        (fits, fit),
        sym (ok-injective (first ++ others) bytes h'')
            ∙ ap (λ q. q ++ others) is_frame
            ∙ ap (λ q. frame (stringify v) ++ q) is_stream,
      )

  stream-empty : (vs : List V) → stream vs ≡ [] → vs ≡ []
  stream-empty [] h = refl
  stream-empty (v ∷ vs) h = absurd (
      omega (
        arith,
        ap length h,
        length-append (frame (stringify v)) (stream vs),
        length-frame (stringify v),
      ))

  -- However the encoded values are cut into chunks, a decoder that is handed the chunks one after
  -- the other gives exactly the values and keeps nothing.
  pub receive-encode_all :
      (vs : List V) (chunks : List Bytes)
      → encode_all stringify vs ≡ ok (flatten chunks)
      → receive parse [] chunks ≡ decoded vs []
  receive-encode_all vs chunks h =
      let (fit, is_stream) = encode_all-stream vs (flatten chunks) h in
      receive-stream chunks [] vs fit is_stream
        (λ none_left. stream-empty vs (sym is_stream ∙ none_left))

  -- The frames of values of which all together fit into the buffer are decoded in one call.
  pub decode_frames-encode_all :
      (vs : List V) (bytes : Bytes)
      → encode_all stringify vs ≡ ok bytes
      → length bytes ≤ max_buffer_bytes
      → decode_frames parse bytes ≡ ok vs
  unfolding decode_frames push_bounded
  decode_frames-encode_all vs bytes h small =
      let (fit, is_stream) = encode_all-stream vs bytes h in
      let d =
        drain-stream (λ buffer rest. buffer) (suc (length bytes)) bytes [] [] vs fit
          (append-nil bytes ∙ is_stream) (omega arith) in
      let none_left = d.ends refl in
      let empty = sym (append-nil d.kept) ∙ d.still ∙ ap stream none_left in
      let all_now = d.all_values ∙ ap (λ q. d.now ++ q) none_left ∙ append-nil d.now in
      let within = ltb-false max_buffer_bytes (0 + length bytes) (omega arith) in
      rw within
        (ap finish' d.drains ∙ ap (λ b. finish' (decoded d.now b)) empty ∙ ap ok (sym all_now))
    where
      finish' : Pushed V → Result FrameError (List V)
      finish' = finish parse
