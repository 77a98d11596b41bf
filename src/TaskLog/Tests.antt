-- ===== src/TaskLog/Tests.antt =====
-- The decoders on concrete output. The decoder of texts is a toy: it keeps line feeds and shows any
-- other byte as a letter.
use Prim.Native.Char.{Char}
use Prim.Native.String.{String, [], ◌∷◌}
use text.Mathlib.TextLemmas.{nil-append, cons-append, append-nil}
use containerhub.Prelude.{
  ℕ, ◌≡◌, ◌≢◌, refl, List, [], ◌∷◌, ◌++◌, filter, inl, inr, arith, if◌then◌else◌, ◌==◌,
}
use containerhub.Prelude.Text.{◌<>◌, non_empty}
use containerhub.TaskLog.{
  Utf8, to_log_lines, split_lines, add_char, scan, out_of_fuel, payload_end,
  has_docker_multiplexed_log_header, decode_docker_log_output, create_docker_log_line_decoder, push,
  drain, emit_bytes, emit_text, end_stream,
}
use containerhub.TaskLog.Frames.{Frame, IsFrame, encode, contents, decode-encode, scan_ends}
use containerhub.TaskLog.Stream.{IsUtf8, raw, framed, all_content, push_all, stream-lines}

letter : ℕ → Char
letter b = if b == 10 then "\n" else "x"

letters : List ℕ → String
letters [] = ""
letters (b ∷ bs) = letter b ∷ letters bs

letters-append : (a b : List ℕ) → letters (a ++ b) ≡ letters a <> letters b
unfolding letters
letters-append [] b = rw nil-append
letters-append (x ∷ a) b = rw (letters-append a b, cons-append)

abbrev toy : Utf8
toy = record {
  to_text = letters;
  State = Unit {0};
  start = tt;
  write = λ s bytes. (letters bytes, tt);
  finish = λ s. "";
}

toy-IsUtf8 : IsUtf8 toy
unfolding letters
toy-IsUtf8 = record {
  write_nil = λ s. refl;
  write_append = λ s a b. rw (letters-append a b);
  whole = λ a. append-nil (letters a);
}

abbrev hello : Frame
hello = record { stream_type = 1; payload = 104 ∷ 105 ∷ 10 ∷ [] }

abbrev oops : Frame
oops = record { stream_type = 2; payload = 33 ∷ 10 ∷ 46 ∷ [] }

hello-IsFrame : IsFrame hello
hello-IsFrame = record { stream = inl refl; fits = (omega arith) }

oops-IsFrame : IsFrame oops
oops-IsFrame = record { stream = inr refl; fits = (omega arith) }

decode_hello : decode_docker_log_output toy (encode (hello ∷ oops ∷ [])) ≡ "xx" ∷ "x" ∷ "x" ∷ []
unfolding decode_docker_log_output scan has_docker_multiplexed_log_header payload_end to_log_lines
    split_lines add_char letters letter
decode_hello = refl

decode-encode_example :
    decode_docker_log_output toy (encode (hello ∷ oops ∷ []))
    ≡ to_log_lines (letters (contents (hello ∷ oops ∷ [])))
decode-encode_example = decode-encode toy (hello ∷ oops ∷ []) (hello-IsFrame, (oops-IsFrame, tt))

scan_ends_example : scan 11 (encode (hello ∷ [])) ≢ out_of_fuel
scan_ends_example = scan_ends 11 (encode (hello ∷ [])) (omega arith)

stream-lines_example :
    (end_stream toy (
      push_all toy
        (create_docker_log_line_decoder toy)
        (framed hello (oops ∷ []) ∷ raw 65 (10 ∷ []) ∷ []))).log_lines
    ≡ filter non_empty
        (to_log_lines (letters (all_content (framed hello (oops ∷ []) ∷ raw 65 (10 ∷ []) ∷ []))))
stream-lines_example =
    stream-lines toy toy-IsUtf8 (framed hello (oops ∷ [])) (raw 65 (10 ∷ []) ∷ [])
      (hello-IsFrame, (oops-IsFrame, tt)) ((unfold has_docker_multiplexed_log_header in refl), tt)

-- The four bytes of a header that arrive one by one become text.
cut_header_shows :
    (push toy
      (push toy (create_docker_log_line_decoder toy) (1 ∷ []))
      (0 ∷ 0 ∷ 0 ∷ [])).pending_line
    ≡ "xxxx"
unfolding push drain emit_bytes emit_text create_docker_log_line_decoder payload_end split_lines
    add_char has_docker_multiplexed_log_header letters letter
cut_header_shows = refl
