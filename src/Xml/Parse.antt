-- ===== src/Xml/Parse.antt =====
-- The parsers of xml_msg.c over a document. `none` is a copy that does not fit into its buffer.
pub mod Fields
pub mod Saved
pub mod Reply
use somerubbish.Prelude.{
  ℕ, Bool, true, false, not, ◌&&◌, List, [], ◌∷◌, Option, none, some, ◌==◌, if◌then◌else◌, ltb,
  length, get_or, ◌>>=◌,
}
use somerubbish.Libc.{Name}
use somerubbish.Xml.Library.{codes, Element, Root, Libxml}
use somerubbish.Xml.Message.{
  SockMsg, RplMsg, xml_sock_msg_root, xml_sock_msg_type, xml_sock_msg_dst_ip, xml_sock_msg_fn,
  xml_rpl_msg_root, xml_rpl_msg_err,
}

-- `INET_ADDRSTRLEN` of netinet/in.h, and `FILE_PATH_LEN` of glob.h.
abbrev pub inet_addrstrlen : ℕ
inet_addrstrlen = 16

abbrev pub file_path_len : ℕ
file_path_len = 260

-- strcpy into a buffer of a size.
abbrev pub strcpy : (size : ℕ) → Name → Option Name
strcpy size src = if ltb (length src) size then some src else none

-- The bits of `parse_ok` for a SOCK_MSG.
pub record ParseOk : Type 0 where
  pub type : Bool
  pub dst_ip : Bool
  pub fn : Bool

-- `parse_ok == SOCKMSG_PARSE_OK`.
abbrev pub is_all : ParseOk → Bool
is_all p = p.type && p.dst_ip && p.fn

abbrev pub none_ok : ParseOk
none_ok = record { type = false; dst_ip = false; fn = false }

-- One round: whether the loop ends by its `break`, and the state after the round.
unfoldable pub sock_round : Libxml → ParseOk → SockMsg → Element → Option (Bool × ParseOk × SockMsg)
sock_round x p m e =
    if not p.type && x.equal e.name xml_sock_msg_type
    then (let p' = record p { type = true } in
        some (is_all p', p', record m { type = get_or e.content 0 0 }))
    else if not p.dst_ip && x.equal e.name xml_sock_msg_dst_ip
    then (strcpy inet_addrstrlen e.content >>= (λ s.
        let p' = record p { dst_ip = true } in some (is_all p', p', record m { dest_ip = s })))
    else if not p.fn && x.equal e.name xml_sock_msg_fn
    then (strcpy file_path_len e.content >>= (λ s.
        let p' = record p { fn = true } in some (is_all p', p', record m { file_name = s })))
    else some (false, p, m)

unfoldable pub sock_loop : Libxml → ParseOk → SockMsg → List Element → Option (ParseOk × SockMsg)
sock_loop x p m [] = some (p, m)
sock_loop x p m (e ∷ es) =
    sock_round x p m e
    >>= (λ (stop, p', m'). let rest = sock_loop x p' m' es in if stop then some (p', m') else rest)

-- The status after the label `op_over`.
abbrev pub status : (is_parsed : Bool) (ret : ℕ) → ℕ
status is_parsed ret = if is_parsed then ret else 4

-- xml_to_sock_msg and xml_to_sock_msg_parse_from_fd on what libxml2 has read.
unfoldable pub doc_to_sock_msg : Libxml → Option (Option Root) → SockMsg → Option (ℕ × SockMsg)
doc_to_sock_msg x none m = some (status false 1, m)
doc_to_sock_msg x (some none) m = some (status false 2, m)
doc_to_sock_msg x (some (some d)) m =
    if x.equal d.name xml_sock_msg_root
    then sock_loop x none_ok m d.children >>= (λ (p, m'). some (status (is_all p) 0, m'))
    else some (status false 3, m)

unfoldable pub rpl_loop : Libxml → (parse_ok : Bool) → RplMsg → List Element → Bool × RplMsg
rpl_loop x p m [] = (p, m)
rpl_loop x p m (e ∷ es) =
    let rest = rpl_loop x p m es in
    if not p && x.equal e.name xml_rpl_msg_err
    then (true, record m { err = get_or e.content 0 0 })
    else rest

unfoldable pub doc_to_rpl_msg : Libxml → Option (Option Root) → RplMsg → ℕ × RplMsg
doc_to_rpl_msg x none m = (status false 1, m)
doc_to_rpl_msg x (some none) m = (status false 2, m)
doc_to_rpl_msg x (some (some d)) m =
    if x.equal d.name xml_rpl_msg_root
    then (let (p, m') = rpl_loop x false m d.children in (status p 0, m'))
    else (status false 3, m)

-- The parsers, from a file, standard input or a descriptor with these bytes.
unfoldable pub xml_to_sock_msg : Libxml → List ℕ → SockMsg → Option (ℕ × SockMsg)
xml_to_sock_msg x bytes m = doc_to_sock_msg x (x.read bytes) m

unfoldable pub xml_to_sock_msg_parse_from_fd : Libxml → List ℕ → SockMsg → Option (ℕ × SockMsg)
xml_to_sock_msg_parse_from_fd x bytes m = doc_to_sock_msg x (x.read bytes) m

unfoldable pub xml_to_rpl_msg : Libxml → List ℕ → RplMsg → ℕ × RplMsg
xml_to_rpl_msg x bytes m = doc_to_rpl_msg x (x.read bytes) m

unfoldable pub xml_to_rpl_msg_parse_from_fd : Libxml → List ℕ → RplMsg → ℕ × RplMsg
xml_to_rpl_msg_parse_from_fd x bytes m = doc_to_rpl_msg x (x.read bytes) m
