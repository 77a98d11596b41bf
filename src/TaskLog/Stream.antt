-- ===== src/TaskLog/Stream.antt =====
-- The line decoder, chunk by chunk.
use containerhub.Prelude.{
  ℕ, zero, suc, ◌<◌, ◌≤◌, ◌≡◌, refl, ap, ◌∙◌, sym, Bool, false, List, [], ◌∷◌, ◌++◌, String, length,
  length-append, All, arith, Bool-cases, inl, inr, le→ltb, if◌then◌else◌, filter,
}
use mathlib.Core.List.{append_assoc, append-nil}
use text.Mathlib.TextLemmas.{append_assoc as text_assoc, nil-append}
use containerhub.Prelude.Text.{◌<>◌, non_empty, is_empty}
use containerhub.TaskLog.{
  Utf8, split_lines, to_log_lines, has_docker_multiplexed_log_header, Decoder,
  create_docker_log_line_decoder, emit_text, emit_bytes, drain, push, end_stream,
}
use containerhub.TaskLog.Lines.{split_lines-append, continued}
use containerhub.TaskLog.Frames.{
  Frame, IsFrame, frame_then, encode, contents, frame-header, frame-payload, frame-rest,
  frame-length,
}

-- What Node documents of `StringDecoder`: bytes that come in pieces give the text of the whole, and
-- the end gives what a cut character leaves.
pub record IsUtf8 (utf8 : Utf8) : Type 0 where
  pub write_nil : (s : utf8.State) → utf8.write s [] ≡ ("", s)
  pub write_append :
      (s : utf8.State) (a b : List ℕ)
      → utf8.write s (a ++ b)
        ≡ (let (t, s') = utf8.write s a in let (u, s'') = utf8.write s' b in (t <> u, s''))
  pub whole :
      (a : List ℕ) → (let (t, s) = utf8.write utf8.start a in t <> utf8.finish s) ≡ utf8.to_text a

filter-append {ℓ} :
    {A : Type ℓ} (p : A → Bool) (xs ys : List A) → filter p (xs ++ ys) ≡ filter p xs ++ filter p ys
filter-append p [] ys = refl
filter-append p (x ∷ xs) ys = rw (filter-append p xs ys) (ground arith)

module _ (utf8 : Utf8) where
  drain-frame :
      (fuel : ℕ) (d : Decoder utf8) (f : Frame) (rest : List ℕ)
      → IsFrame f
      → d.buffered_output ≡ frame_then f rest
      → drain utf8 (suc fuel) d ≡ drain utf8 fuel (emit_bytes utf8 d f.payload rest)
  unfolding drain
  drain-frame fuel d f rest h e =
      let size : 8 ≤ length (frame_then f rest) = omega arith in
      rw (e, frame-header f rest h, le→ltb (length (frame_then f rest)) 8 size)
        (rw (le→ltb _ _ (frame-length f rest h)) (rw (frame-payload f rest h, frame-rest f rest h)))

  drain-empty : (fuel : ℕ) (d : Decoder utf8) → d.buffered_output ≡ [] → drain utf8 fuel d ≡ d
  unfolding drain
  drain-empty zero d e = refl
  drain-empty (suc fuel) d e = rw e

  emit_bytes-buffer :
      (d : Decoder utf8) (a l : List ℕ) → (emit_bytes utf8 d a l).buffered_output ≡ l
  unfolding emit_bytes
  emit_bytes-buffer d a l = refl

  -- What is not a frame is handed on at once.
  drain-raw :
      (fuel b : ℕ) (bs : List ℕ) (d : Decoder utf8)
      → d.buffered_output ≡ b ∷ bs
      → has_docker_multiplexed_log_header (b ∷ bs) ≡ false
      → drain utf8 (suc fuel) d ≡ emit_bytes utf8 d (b ∷ bs) []
  unfolding drain
  drain-raw fuel b bs d e h = rw (e, h)

  push-empty :
      (d : Decoder utf8) (chunk : List ℕ)
      → d.buffered_output ≡ []
      → push utf8 d chunk ≡ drain utf8 (suc (length chunk)) (record d { buffered_output = chunk })
  unfolding push
  push-empty d chunk e = rw e

  emit_bytes_over :
      (d : Decoder utf8) (chunk a : List ℕ)
      → emit_bytes utf8 (record d { buffered_output = chunk }) a [] ≡ emit_bytes utf8 d a []
  unfolding emit_bytes
  emit_bytes_over d chunk a = refl

module _ (utf8 : Utf8) (laws : IsUtf8 utf8) where
  emit_text-append :
      (d : Decoder utf8) (s t : String)
      → emit_text utf8 (emit_text utf8 d s) t ≡ emit_text utf8 d (s <> t)
  unfolding emit_text
  emit_text-append d s t =
      rw (← text_assoc d.pending_line s t, split_lines-append (d.pending_line <> s) t)
        (rw (filter-append non_empty (split_lines (d.pending_line <> s)).0, ← append_assoc))

  emit_bytes-append :
      (d : Decoder utf8) (a b l m : List ℕ)
      → emit_bytes utf8 (emit_bytes utf8 d a l) b m ≡ emit_bytes utf8 d (a ++ b) m
  emit_bytes-append d a b l m =
      let (t, s) = utf8.write d.decoding a in
      let (u, s') = utf8.write s b in
      let base : Decoder utf8 = record d { buffered_output = m; decoding = s' } in
      unfold emit_bytes in rw (laws.write_append d.decoding a b) (emit_text-append base t u)

  -- A buffer of whole frames, at least one, is drained at one go.
  drain-frames :
      (fuel : ℕ) (d : Decoder utf8) (f : Frame) (fs : List Frame)
      → IsFrame f
      → All IsFrame fs
      → d.buffered_output ≡ encode (f ∷ fs)
      → length (encode (f ∷ fs)) < fuel
      → drain utf8 fuel d ≡ emit_bytes utf8 d (contents (f ∷ fs)) []
  drain-frames zero d f fs h hs e k = elim k [ ]
  drain-frames (suc fuel) d f [] h hs e k =
      drain-frame utf8 fuel d f [] h e
      ∙ drain-empty utf8 fuel _ (emit_bytes-buffer utf8 d f.payload [])
      ∙ ap (λ p. emit_bytes utf8 d p []) (sym (append-nil f.payload))
  drain-frames (suc fuel) d f (g ∷ fs) h (hg, hs) e k =
      let shorter = length-append f.payload (encode (g ∷ fs)) in
      drain-frame utf8 fuel d f (encode (g ∷ fs)) h e
      ∙ drain-frames fuel (emit_bytes utf8 d f.payload (encode (g ∷ fs))) g fs hg hs
          (emit_bytes-buffer utf8 d f.payload (encode (g ∷ fs))) (omega arith)
      ∙ emit_bytes-append d f.payload (contents (g ∷ fs)) _ []

-- A chunk of output: bytes that do not begin a frame, or whole frames.
pub data Chunk : Type 0 where
  raw : ℕ → List ℕ → Chunk
  framed : Frame → List Frame → Chunk

abbrev pub wire : Chunk → List ℕ
wire (raw b bs) = b ∷ bs
wire (framed f fs) = encode (f ∷ fs)

abbrev pub content : Chunk → List ℕ
content (raw b bs) = b ∷ bs
content (framed f fs) = contents (f ∷ fs)

abbrev pub IsChunk : Chunk → Type 0
IsChunk (raw b bs) = has_docker_multiplexed_log_header (b ∷ bs) ≡ false
IsChunk (framed f fs) = IsFrame f × All IsFrame fs

abbrev pub all_content : List Chunk → List ℕ
all_content [] = []
all_content (c ∷ cs) = content c ++ all_content cs

module _ (utf8 : Utf8) where
  -- The decoder after the chunks in their order.
  pub push_all : Decoder utf8 → List Chunk → Decoder utf8
  push_all d [] = d
  push_all d (c ∷ cs) = push_all (push utf8 d (wire c)) cs

module _ (utf8 : Utf8) (laws : IsUtf8 utf8) where
  push-chunk :
      (d : Decoder utf8) (c : Chunk)
      → IsChunk c
      → d.buffered_output ≡ []
      → push utf8 d (wire c) ≡ emit_bytes utf8 d (content c) []
  push-chunk d (raw b bs) h e =
      let chunk = b ∷ bs in
      push-empty utf8 d chunk e
      ∙ drain-raw utf8 (length chunk) b bs (record d { buffered_output = chunk }) refl h
      ∙ emit_bytes_over utf8 d chunk chunk
  push-chunk d (framed f fs) (h, hs) e =
      let chunk = encode (f ∷ fs) in
      push-empty utf8 d chunk e
      ∙ drain-frames utf8 laws (suc (length chunk)) (record d { buffered_output = chunk }) f fs h hs
          refl (omega arith)
      ∙ emit_bytes_over utf8 d chunk (contents (f ∷ fs))

  push_all-chunks :
      (d : Decoder utf8) (c : Chunk) (cs : List Chunk)
      → IsChunk c
      → All IsChunk cs
      → d.buffered_output ≡ []
      → push_all utf8 d (c ∷ cs) ≡ emit_bytes utf8 d (all_content (c ∷ cs)) []
  unfolding push_all
  push_all-chunks d c [] h hs e =
      push-chunk d c h e ∙ ap (λ p. emit_bytes utf8 d p []) (sym (append-nil (content c)))
  push_all-chunks d c (c' ∷ cs) h (h', hs) e =
      let next = emit_bytes utf8 d (content c) [] in
      ap (λ (n : Decoder utf8). push_all utf8 n (c' ∷ cs)) (push-chunk d c h e)
      ∙ push_all-chunks next c' cs h' hs (emit_bytes-buffer utf8 d (content c) [])
      ∙ emit_bytes-append utf8 laws d (content c) (all_content (c' ∷ cs)) [] []

  last_line :
      (lines : List String) (rest : String)
      → (if non_empty rest then filter non_empty lines ++ rest ∷ [] else filter non_empty lines)
        ≡ filter non_empty (if is_empty rest then lines else lines ++ rest ∷ [])
  last_line lines rest = elim (Bool-cases (is_empty rest)) [
    | inl e ↦ rw e
    | inr e ↦ rw e (rw (filter-append non_empty lines (rest ∷ []), e))
  ]

  ended_lines :
      (bytes : List ℕ)
      → (end_stream utf8 (emit_bytes utf8 (create_docker_log_line_decoder utf8) bytes [])).log_lines
        ≡ filter non_empty (to_log_lines (utf8.to_text bytes))
  unfolding end_stream create_docker_log_line_decoder to_log_lines
  ended_lines bytes =
      let (t, s) = utf8.write utf8.start bytes in
      let u = utf8.finish s in
      let whole_lines = continued (split_lines t) u in
      rw (nil-append t, ← laws.whole bytes)
        (rw (split_lines-append t u, to_log_lines)
          (rw (← filter-append non_empty (split_lines t).0)
            (last_line whole_lines.0 whole_lines.1)))

  -- However whole frames and raw bytes are dealt out over chunks, the decoder hands over the lines
  -- of the text of all they hold, in order, but for the empty lines. No chunk cuts a frame, and no
  -- chunk of raw bytes begins like one.
  pub stream-lines :
      (c : Chunk) (cs : List Chunk)
      → IsChunk c
      → All IsChunk cs
      → (end_stream utf8 (push_all utf8 (create_docker_log_line_decoder utf8) (c ∷ cs))).log_lines
        ≡ filter non_empty (to_log_lines (utf8.to_text (all_content (c ∷ cs))))
  stream-lines c cs h hs =
      ap (λ (d : Decoder utf8). (end_stream utf8 d).log_lines)
        (push_all-chunks (create_docker_log_line_decoder utf8) c cs h hs
          (unfold create_docker_log_line_decoder in refl))
      ∙ ended_lines (all_content (c ∷ cs))

short_no_header :
    (t : ℕ) (zeros : List ℕ)
    → length zeros < 3
    → has_docker_multiplexed_log_header (t ∷ zeros) ≡ false
unfolding has_docker_multiplexed_log_header
short_no_header t [] h = refl
short_no_header t (a ∷ []) h = refl
short_no_header t (a ∷ b ∷ []) h = refl
short_no_header t (a ∷ b ∷ c ∷ r) h = absurd (omega arith)

-- A chunk that ends within the first four bytes of a frame's header is emitted whole, like bytes that
-- are no frame.
push_cut_header :
    (utf8 : Utf8) (d : Decoder utf8) (stream_type : ℕ) (zeros : List ℕ)
    → d.buffered_output ≡ []
    → length zeros < 3
    → push utf8 d (stream_type ∷ zeros) ≡ emit_bytes utf8 d (stream_type ∷ zeros) []
push_cut_header utf8 d t zeros e h =
    let chunk = t ∷ zeros in
    push-empty utf8 d chunk e
    ∙ drain-raw utf8 (length chunk) t zeros (record d { buffered_output = chunk }) refl
        (short_no_header t zeros h)
    ∙ emit_bytes_over utf8 d chunk chunk
