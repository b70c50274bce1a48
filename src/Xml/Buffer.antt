-- ===== src/Xml/Buffer.antt =====
-- The messages of xml_msg.c in a buffer of bytes, by way of a pipe. The text of a document is taken
-- to fit into the pipe. Env says which calls fail.
pub mod RoundTrip
use somerubbish.Prelude.{
  ℕ, ◌-◌, Bool, true, false, List, [], ◌∷◌, ◌++◌, Option, none, some, ◌==◌, if◌then◌else◌, ◌>>=◌,
  take, length, replicate, not,
}
use somerubbish.Xml.Library.{Libxml}
use somerubbish.Xml.Message.{SockMsg, RplMsg, sock_msg_to_xml, rpl_msg_to_xml}
use somerubbish.Xml.Parse.{
  xml_to_sock_msg, xml_to_sock_msg_parse_from_fd, xml_to_rpl_msg, xml_to_rpl_msg_parse_from_fd,
}

-- Whether pipe works, and the read or the write on it.
pub record Env : Type 0 where
  pub pipe_ok : Bool
  pub io_ok : Bool

-- `bzero`, and a read of at most the buffer's size.
abbrev pub zeros : (bufsiz : ℕ) → List ℕ
zeros bufsiz = replicate bufsiz 0

abbrev pub read_pipe : (text : List ℕ) (bufsiz : ℕ) → List ℕ
read_pipe text bufsiz = take bufsiz text ++ replicate (bufsiz - length text) 0

-- The bytes that `strlen(buf)` counts.
abbrev pub text_of : List ℕ → List ℕ
text_of [] = []
text_of (c ∷ cs) = if c == 0 then [] else c ∷ text_of cs

-- The status, and the buffer after the call.
unfoldable pub sock_msg_to_buf : Libxml → Env → SockMsg → (buf : List ℕ) (bufsiz : ℕ) → ℕ × List ℕ
sock_msg_to_buf x env m buf bufsiz =
    if not env.pipe_ok
    then (1, buf)
    else if not env.io_ok
    then (2, zeros bufsiz)
    else (0, read_pipe (sock_msg_to_xml x m) bufsiz)

unfoldable pub rpl_msg_to_buf : Libxml → Env → RplMsg → (buf : List ℕ) (bufsiz : ℕ) → ℕ × List ℕ
rpl_msg_to_buf x env m buf bufsiz =
    if not env.pipe_ok
    then (1, buf)
    else if not env.io_ok
    then (2, zeros bufsiz)
    else (0, read_pipe (rpl_msg_to_xml x m) bufsiz)

-- What the callers make of a parser's status.
abbrev pub parse_status : ℕ → ℕ
parse_status r = if r == 0 then 0 else 3

unfoldable pub buf_to_sock_msg_parse_from_fd :
    Libxml → Env → SockMsg → (buf : List ℕ) → Option (ℕ × SockMsg)
buf_to_sock_msg_parse_from_fd x env m buf =
    if not env.pipe_ok
    then some (1, m)
    else if not env.io_ok
    then some (2, m)
    else (xml_to_sock_msg_parse_from_fd x (text_of buf) m
        >>= (λ (r, m'). some (parse_status r, m')))

unfoldable pub buf_to_rpl_msg_parse_from_fd : Libxml → Env → RplMsg → (buf : List ℕ) → ℕ × RplMsg
buf_to_rpl_msg_parse_from_fd x env m buf =
    if not env.pipe_ok
    then (1, m)
    else if not env.io_ok
    then (2, m)
    else (let (r, m') = xml_to_rpl_msg_parse_from_fd x (text_of buf) m in (parse_status r, m'))

unfoldable pub buf_to_sock_msg : Libxml → Env → SockMsg → (buf : List ℕ) → Option (ℕ × SockMsg)
buf_to_sock_msg x env m buf =
    if not env.pipe_ok
    then some (1, m)
    else if not env.io_ok
    then some (2, m)
    else (xml_to_sock_msg x (text_of buf) m >>= (λ (r, m'). some (parse_status r, m')))

unfoldable pub buf_to_rpl_msg : Libxml → Env → RplMsg → (buf : List ℕ) → ℕ × RplMsg
buf_to_rpl_msg x env m buf =
    if not env.pipe_ok
    then (1, m)
    else if not env.io_ok
    then (2, m)
    else (let (r, m') = xml_to_rpl_msg x (text_of buf) m in (parse_status r, m'))
