-- ===== src/TaskLog/Frames.antt =====
-- The framing of the Docker daemon, as its sender writes it, and decoding at once.
use containerhub.Prelude.{
  ℕ, zero, suc, ◌/◌, ◌%◌, ◌<◌, ◌≤◌, ◌≡◌, ◌⊎◌, refl, true, List, [], ◌∷◌, ◌++◌, length,
  length-append, length-drop, take, drop, take-append, drop-append, All, arith, le→ltb, ◌≢◌,
}
use containerhub.TaskLog.{
  Utf8, to_log_lines, has_docker_multiplexed_log_header, payload_end, payloads, out_of_fuel,
  put_payload, scan, decode_docker_log_output,
}

pub record Frame : Type 0 where
  pub stream_type : ℕ
  pub payload : List ℕ

-- The stream is stdout or stderr, and the length fits in four bytes.
pub record IsFrame (f : Frame) : Type 0 where
  pub stream : (f.stream_type ≡ 1) ⊎ (f.stream_type ≡ 2)
  pub fits : length f.payload < 4294967296

-- A frame and what follows it.
abbrev pub frame_then : Frame → List ℕ → List ℕ
frame_then f rest =
    let n = length f.payload in
    f.stream_type
    ∷ 0
    ∷ 0
    ∷ 0
    ∷ n / 16777216
    ∷ (n / 65536 % 256)
    ∷ (n / 256 % 256)
    ∷ (n % 256)
    ∷ (f.payload ++ rest)

abbrev pub encode : List Frame → List ℕ
encode [] = []
encode (f ∷ fs) = frame_then f (encode fs)

abbrev pub contents : List Frame → List ℕ
contents [] = []
contents (f ∷ fs) = f.payload ++ contents fs

module _ (f : Frame) (rest : List ℕ) (h : IsFrame f) where
  pub frame-header : has_docker_multiplexed_log_header (frame_then f rest) ≡ true
  unfolding has_docker_multiplexed_log_header
  frame-header = ground (arith, h.stream)

  pub frame-payload_end :
      payload_end (frame_then f rest)
      ≡ suc (suc (suc (suc (suc (suc (suc (suc (length f.payload))))))))
  unfolding payload_end
  frame-payload_end = omega (arith, h.fits)

  pub frame-length : payload_end (frame_then f rest) ≤ length (frame_then f rest)
  frame-length = omega (arith, frame-payload_end, length-append f.payload rest)

  pub frame-payload :
      drop 8 (take (payload_end (frame_then f rest)) (frame_then f rest)) ≡ f.payload
  frame-payload = rw frame-payload_end (take-append f.payload rest)

  pub frame-rest : drop (payload_end (frame_then f rest)) (frame_then f rest) ≡ rest
  frame-rest = rw frame-payload_end (drop-append f.payload rest)

  scan-frame :
      (fuel : ℕ) → scan (suc fuel) (frame_then f rest) ≡ put_payload f.payload (scan fuel rest)
  unfolding scan
  scan-frame fuel =
      let size : 8 ≤ length (frame_then f rest) = omega arith in
      rw (le→ltb (length (frame_then f rest)) 8 size, frame-header)
        (rw (le→ltb _ _ frame-length) (rw (frame-payload, frame-rest)))

scan-encode :
    (fuel : ℕ) (fs : List Frame)
    → All IsFrame fs
    → length (encode fs) ≤ fuel
    → scan fuel (encode fs) ≡ payloads (contents fs)
scan-encode fuel [] h e = unfold scan in refl
scan-encode zero (f ∷ fs) h e = absurd (omega arith)
scan-encode (suc fuel) (f ∷ fs) (h, hs) e =
    let shorter = length-append f.payload (encode fs) in
    rw (scan-frame f (encode fs) h fuel, scan-encode fuel fs hs (omega arith))

-- Output in whole frames is decoded to the lines of the payloads' text, for any payloads.
pub decode-encode :
    (utf8 : Utf8) (fs : List Frame)
    → All IsFrame fs
    → decode_docker_log_output utf8 (encode fs) ≡ to_log_lines (utf8.to_text (contents fs))
unfolding decode_docker_log_output
decode-encode utf8 [] h = unfold has_docker_multiplexed_log_header in refl
decode-encode utf8 (f ∷ fs) (h, hs) = rw (
  frame-header f (encode fs) h,
  scan-encode (length (encode (f ∷ fs))) (f ∷ fs) (h, hs) (omega arith),
)

-- The loop never runs out of fuel: it is given a round for every byte.
payload_end-ge : (output : List ℕ) → 8 ≤ payload_end output
unfolding payload_end
payload_end-ge output = omega arith

pub scan_ends : (fuel : ℕ) (output : List ℕ) → length output ≤ fuel → scan fuel output ≢ out_of_fuel
unfolding scan
scan_ends fuel [] h = λ e. cc
scan_ends zero (b ∷ output) h = absurd (omega arith)
scan_ends (suc fuel) (b ∷ output) h =
    let end = payload_end (b ∷ output) in
    let shorter : length (drop end (b ∷ output)) ≤ fuel =
      omega (arith, length-drop end (b ∷ output), payload_end-ge (b ∷ output)) in
    let later = scan_ends fuel (drop end (b ∷ output)) shorter in ground (arith, later)
