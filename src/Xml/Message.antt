-- ===== src/Xml/Message.antt =====
-- The messages of sn_sckt.h, and the documents that xml_msg.c makes of them.
use somerubbish.Prelude.{ℕ, List, [], ◌∷◌, ◌==◌, if◌then◌else◌}
use somerubbish.Libc.{Name}
use somerubbish.Xml.Library.{codes, Root, Libxml}

-- `SOCK_MSG`. A text is its bytes without the closing zero.
pub record SockMsg : Type 0 where
  pub type : ℕ
  pub dest_ip : Name
  pub file_name : Name

-- `RPL_MSG`.
pub record RplMsg : Type 0 where
  pub err : ℕ

abbrev pub xml_sock_msg_root : Name
xml_sock_msg_root = codes "sock_msg"

abbrev pub xml_sock_msg_type : Name
xml_sock_msg_type = codes "type"

abbrev pub xml_sock_msg_dst_ip : Name
xml_sock_msg_dst_ip = codes "dest_ip"

abbrev pub xml_sock_msg_fn : Name
xml_sock_msg_fn = codes "file_name"

abbrev pub xml_rpl_msg_root : Name
xml_rpl_msg_root = codes "rpl_msg"

abbrev pub xml_rpl_msg_err : Name
xml_rpl_msg_err = codes "err"

-- u8_to_str of utility.c, the text of one `char`; a zero ends it at once.
unfoldable pub u8_to_str : ℕ → Name
u8_to_str ch = if ch == 0 then [] else ch ∷ []

-- The document of sock_msg_to_xml.
unfoldable pub sock_msg_root : SockMsg → Root
sock_msg_root m = record {
  name = xml_sock_msg_root;
  children =
      record { name = xml_sock_msg_type; content = u8_to_str m.type }
      ∷ record { name = xml_sock_msg_dst_ip; content = m.dest_ip }
      ∷ record { name = xml_sock_msg_fn; content = m.file_name }
      ∷ [];
}

-- The document of rpl_msg_to_xml.
unfoldable pub rpl_msg_root : RplMsg → Root
rpl_msg_root m = record {
  name = xml_rpl_msg_root;
  children = record { name = xml_rpl_msg_err; content = u8_to_str m.err } ∷ [];
}

-- What the two functions write.
unfoldable pub sock_msg_to_xml : Libxml → SockMsg → List ℕ
sock_msg_to_xml x m = x.save (sock_msg_root m)

unfoldable pub rpl_msg_to_xml : Libxml → RplMsg → List ℕ
rpl_msg_to_xml x m = x.save (rpl_msg_root m)
