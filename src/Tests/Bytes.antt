-- ===== src/Tests/Bytes.antt =====
-- The telnet and line functions of src/connection.rs.
use havok_rust.Base.{
  ◌≡◌, refl, Bytes, codes, List, [], ◌∷◌, ◌++◌, map, ok, panic, take, drop, split_at, arith, ◌⊎◌,
}
use havok_rust.Net.{UserMessage}
use havok_rust.Connection.Telnet.{handle_telnet_commands}
use havok_rust.Connection.Telnet.OnePass.{strip, text, handle_telnet_commands-strip}
use havok_rust.Connection.Telnet.Grammar.{
  char, simple, negotiation, handle_telnet_commands-encode, handle_telnet_commands_cut,
  handle_telnet_commands_doubled, handle_telnet_commands-Bounded, Bounded,
}
use havok_rust.Connection.Lines.{read_line, process_backspaces}
use havok_rust.Connection.Lines.Scan.{find}
use havok_rust.Connection.Lines.Backspace.{typed, process_backspaces-typed}
use havok_rust.Connection.Lines.ReadLine.{
  Cut, read_line_total, read_line_text, read_line_lone_cr, read_line_doubled_cr,
}
use havok_rust.Connection.Receive.{receive_lines}
use havok_rust.Connection.Receive.Chunks.{
  receive_lines-with_crlf, receive_lines-append, message_of, sent_before,
}

-- "a", IAC NOP, IAC DO ECHO, "b".
abbrev stream : Bytes
stream = b'a' ∷ 0xFF ∷ 0xF1 ∷ 0xFF ∷ 0xFD ∷ 1 ∷ b'b' ∷ []

stream_runs : handle_telnet_commands stream ≡ ok (codes "ab")
unfolding handle_telnet_commands
stream_runs = refl

cut_runs : handle_telnet_commands (b'a' ∷ 0xFF ∷ 0xFD ∷ []) ≡ panic
unfolding handle_telnet_commands
cut_runs = refl

handle_telnet_commands-strip_example : handle_telnet_commands stream ≡ strip text stream
handle_telnet_commands-strip_example = handle_telnet_commands-strip stream

handle_telnet_commands-encode_example : handle_telnet_commands stream ≡ ok (codes "ab")
handle_telnet_commands-encode_example =
    handle_telnet_commands-encode (char b'a' ∷ simple 0xF1 ∷ negotiation 0xFD 1 ∷ char b'b' ∷ [])
      (omega arith)

handle_telnet_commands_cut_example : handle_telnet_commands (b'a' ∷ 0xFF ∷ 0xFD ∷ []) ≡ panic
handle_telnet_commands_cut_example =
    handle_telnet_commands_cut (char b'a' ∷ []) 0xFD (omega arith) (omega arith) (omega arith)

handle_telnet_commands_doubled_example :
    handle_telnet_commands (b'a' ∷ 0xFF ∷ 0xFF ∷ b'x' ∷ b'b' ∷ []) ≡ ok (codes "ab")
handle_telnet_commands_doubled_example =
    handle_telnet_commands_doubled (char b'a' ∷ []) (char b'b' ∷ []) b'x' (omega arith)
      (omega arith) (omega arith)

handle_telnet_commands-Bounded_example : Bounded 7 (handle_telnet_commands stream)
handle_telnet_commands-Bounded_example = handle_telnet_commands-Bounded stream

-- "hx", a backspace, "i", and the rest of the next line.
abbrev typing : Bytes
typing = codes "hx" ++ (8 ∷ codes "i\r\nwh")

typing_runs : read_line typing ≡ ok (codes "hi\r\n", codes "wh")
unfolding read_line split_at
typing_runs = refl

process_backspaces-typed_example :
    process_backspaces (8 ∷ b'a' ∷ b'b' ∷ 8 ∷ []) ≡ ok (typed (8 ∷ b'a' ∷ b'b' ∷ 8 ∷ []))
process_backspaces-typed_example = process_backspaces-typed (8 ∷ b'a' ∷ b'b' ∷ 8 ∷ [])

read_line_total_example :
    (line : Bytes) × (rest : Bytes) × (read_line typing ≡ ok (line, rest))
    × (((line ≡ []) × (rest ≡ typing)) ⊎ Cut typing line rest)
read_line_total_example = read_line_total typing

read_line_text_example :
    read_line typing ≡ ok (typed (codes "hx" ++ (8 ∷ codes "i")) ++ codes "\r\n", codes "wh")
read_line_text_example = read_line_text (codes "hx" ++ (8 ∷ codes "i")) (codes "wh") (omega arith)

-- A line with a lone CR in it.
abbrev spoiled : Bytes
spoiled = codes "one\rtwo\r\nrest"

spoiled_runs : read_line spoiled ≡ ok (codes "one\r", codes "two\r\nrest")
unfolding read_line split_at
spoiled_runs = refl

read_line_lone_cr_example : read_line spoiled ≡ ok (typed (take 4 spoiled), drop 4 spoiled)
read_line_lone_cr_example =
    read_line_lone_cr (codes "one") (codes "wo") (codes "rest") b't' (omega arith) (omega arith)
      (omega arith)

read_line_misses : read_line (codes "one\r\r\ntwo") ≡ ok ([], codes "one\r\r\ntwo")
read_line_misses = read_line_doubled_cr (codes "one") (codes "two") (omega arith) (omega arith)

abbrev same_bytes : Bytes → Bytes
same_bytes b = b

receive_lines-with_crlf_example :
    receive_lines same_bytes (codes "go\r\n\r\nea")
    ≡ ok (map (message_of same_bytes) (codes "go" ∷ [] ∷ []), codes "ea")
unfolding find
receive_lines-with_crlf_example =
    receive_lines-with_crlf same_bytes (codes "go" ∷ [] ∷ []) (codes "ea") (omega arith) refl

receive_lines_pieces :
    (us : List UserMessage) × (r : Bytes) × (receive_lines same_bytes (codes "go\r\nea")
      ≡ ok (us, r))
    × (receive_lines same_bytes (codes "go\r\neat\r\n")
        ≡ sent_before same_bytes us (receive_lines same_bytes (r ++ codes "t\r\n")))
receive_lines_pieces =
    receive_lines-append same_bytes (codes "go\r\nea") (codes "t\r\n") (omega arith)
