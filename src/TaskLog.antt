-- ===== src/TaskLog.antt =====
-- packages/containerhub-back/src/modules/services/services/TaskLogDecoder.ts: the log output of the
-- Docker daemon, a sequence of frames (a stream type, three zeros, the payload's length in four
-- bytes, the payload) or raw bytes, decoded at once or chunk by chunk. Bytes are numbers; Node's
-- UTF-8 decoders are the parameter `Utf8`.
mod Lines
pub mod Frames
pub mod Stream
mod Tests
use Prim.Native.Char.{Char, code}
use Prim.Native.String.{String, [], ◌∷◌}
use containerhub.Prelude.{
  ℕ, zero, suc, ◌+◌, ◌*◌, Bool, true, false, ◌&&◌, ◌||◌, List, [], ◌∷◌, ◌++◌, filter, length,
  is_nil, take, drop, ltb, leb, ◌==◌, if◌then◌else◌, ◌≡◌,
}
use containerhub.Prelude.Text.{◌<>◌, is_empty, non_empty}

-- `Buffer.toString('utf8')`, and `StringDecoder` with its state.
pub record Utf8 : Type 1 where
  pub to_text : List ℕ → String
  pub State : Type 0
  pub start : State
  pub write : State → List ℕ → String × State
  pub finish : State → String

abbrev starts_lf : String → Bool
starts_lf [] = false
starts_lf (c ∷ s) = code c == 10

abbrev grow : Char → List String × String → List String × String
grow c ([], rest) = ([], c ∷ rest)
grow c (line ∷ lines, rest) = ((c ∷ line) ∷ lines, rest)

-- One more character in front; `lf` says whether a line feed follows it.
add_char : Char → Bool → List String × String → List String × String
add_char c lf (lines, rest) =
    if code c == 13 && lf
    then (lines, rest)
    else if code c == 10
    then ("" ∷ lines, rest)
    else grow c (lines, rest)

-- `text.split(/\r?\n/)`: the lines that are ended, and the last part. A carriage return belongs to
-- the separator exactly when a line feed follows.
pub split_lines : String → List String × String
split_lines [] = ([], "")
split_lines (c ∷ s) = add_char c (starts_lf s) (split_lines s)

pub to_log_lines : String → List String
to_log_lines log_output =
    let (lines, rest) = split_lines log_output in
    if is_empty rest then lines else lines ++ rest ∷ []

-- At the front of the bytes that are left; a byte that is missing is equal to no number.
pub has_docker_multiplexed_log_header : List ℕ → Bool
has_docker_multiplexed_log_header (stream_type ∷ a ∷ b ∷ c ∷ _) =
    (stream_type == 1 || stream_type == 2) && a == 0 && b == 0 && c == 0
has_docker_multiplexed_log_header _ = false

-- `readUInt32BE`.
abbrev pub read_u32_be : List ℕ → ℕ
read_u32_be (a ∷ b ∷ c ∷ d ∷ _) = a * 16777216 + b * 65536 + c * 256 + d
read_u32_be _ = 0

-- The end of the first frame.
pub payload_end : List ℕ → ℕ
payload_end output = 8 + read_u32_be (drop 4 output)

pub data Scan : Type 0 where
  payloads : List ℕ → Scan
  not_frames : Scan
  out_of_fuel : Scan

abbrev pub put_payload : List ℕ → Scan → Scan
put_payload p (payloads ps) = payloads (p ++ ps)
put_payload p not_frames = not_frames
put_payload p out_of_fuel = out_of_fuel

-- The loop of `decodeDockerLogOutput` over the bytes that are left: the payloads, concatenated.
pub scan : ℕ → List ℕ → Scan
scan fuel [] = payloads []
scan zero (b ∷ output) = out_of_fuel
scan (suc fuel) (b ∷ output) =
    let end = payload_end (b ∷ output) in
    let rest = put_payload (drop 8 (take end (b ∷ output))) (scan fuel (drop end (b ∷ output))) in
    if ltb (length (b ∷ output)) 8 || not_header (b ∷ output)
    then not_frames
    else if ltb (length (b ∷ output)) end
    then not_frames
    else rest
  where
    not_header : List ℕ → Bool
    not_header output = if has_docker_multiplexed_log_header output then false else true

module _ (utf8 : Utf8) where
  open utf8 use {to_text, State, start, write, finish}

  abbrev decoded : List ℕ → Scan → List String
  decoded output (payloads ps) = to_log_lines (to_text ps)
  decoded output not_frames = to_log_lines (to_text output)
  decoded output out_of_fuel = []

  pub decode_docker_log_output : List ℕ → List String
  decode_docker_log_output output =
      if has_docker_multiplexed_log_header output
      then decoded output (scan (length output) output)
      else to_log_lines (to_text output)

  -- The state of the line decoder, and the lines that it has handed to `onLogLine`.
  pub record Decoder : Type 0 where
    pub buffered_output : List ℕ
    pub pending_line : String
    pub decoding : State
    pub log_lines : List String

  pub create_docker_log_line_decoder : Decoder
  create_docker_log_line_decoder = record {
    buffered_output = [];
    pending_line = "";
    decoding = start;
    log_lines = [];
  }

  pub emit_text : Decoder → String → Decoder
  emit_text d text =
      let (complete_lines, rest) = split_lines (d.pending_line <> text) in
      record d { pending_line = rest; log_lines = d.log_lines ++ filter non_empty complete_lines }

  -- `emitText(utf8.write(bytes))`, with what is left in the buffer.
  pub emit_bytes : Decoder → List ℕ → List ℕ → Decoder
  unfolding emit_text
  emit_bytes d bytes left =
      let (text, decoding) = write d.decoding bytes in
      emit_text (record d { buffered_output = left; decoding = decoding }) text

  -- The loop of `push`, over the buffer.
  pub drain : ℕ → Decoder → Decoder
  drain zero d = d
  drain (suc fuel) d =
      let output = d.buffered_output in
      let end = payload_end output in
      let next = drain fuel (emit_bytes d (drop 8 (take end output)) (drop end output)) in
      if is_nil output
      then d
      else if has_docker_multiplexed_log_header output
      then (if ltb (length output) 8 || ltb (length output) end then d else next)
      else emit_bytes d output []

  pub push : Decoder → List ℕ → Decoder
  push d chunk =
      let output = d.buffered_output ++ chunk in
      drain (suc (length output)) (record d { buffered_output = output })

  -- `utf8.end()` leaves the UTF-8 decoder as it was at the start.
  pub end_stream : Decoder → Decoder
  unfolding emit_bytes emit_text
  end_stream d =
      let flushed = if is_nil d.buffered_output then d else emit_bytes d d.buffered_output [] in
      let last = emit_text flushed (finish flushed.decoding) in
      record last {
        buffered_output = [];
        pending_line = "";
        decoding = start;
        log_lines =
            if non_empty last.pending_line
            then last.log_lines ++ last.pending_line ∷ []
            else last.log_lines;
      }
