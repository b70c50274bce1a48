-- ===== src/Tests/Xml.antt =====
-- Runs of the messages of xml_msg.c, with a plain format in place of XML: every name and text ends
-- with the byte 1, and a text node is read before each child.
use somerubbish.Prelude.{
  ℕ, ◌≡◌, List, [], ◌∷◌, ◌++◌, Option, none, some, ◌==◌, if◌then◌else◌, subst,
}
use somerubbish.Libc.{Name}
use somerubbish.Tests.Locks.{same_name, same_name_iff}
use somerubbish.Xml.Library.{codes, Element, Root, Libxml}
use somerubbish.Xml.Message.{SockMsg, RplMsg, rpl_msg_root}
use somerubbish.Xml.Parse.{doc_to_sock_msg, doc_to_rpl_msg}
use somerubbish.Xml.Parse.Fields.{AllFit, Answers, doc_to_sock_msg_lem}
use somerubbish.Xml.Parse.Reply.{Replies, doc_to_rpl_msg_lem}

abbrev write_fields : List Element → List ℕ
write_fields [] = []
write_fields (e ∷ es) = e.name ++ 1 ∷ (e.content ++ 1 ∷ write_fields es)

abbrev write_doc : Root → List ℕ
write_doc d = d.name ++ 1 ∷ write_fields d.children

-- The texts that end with the byte 1.
abbrev split : Name → List ℕ → List Name
split acc [] = []
split acc (c ∷ cs) = if c == 1 then acc ∷ split [] cs else split (acc ++ c ∷ []) cs

abbrev read_fields : List Name → List Element
read_fields (n ∷ c ∷ ts) =
    record { name = codes "text"; content = [] } ∷ record { name = n; content = c } ∷ read_fields ts
read_fields _ = []

abbrev read_doc : List Name → Option (Option Root)
read_doc [] = none
read_doc (n ∷ ts) = some (some (record { name = n; children = read_fields ts }))

abbrev plain_format : Libxml
plain_format = record {
  save = write_doc;
  read = λ bytes. read_doc (split [] bytes);
  equal = same_name;
}

abbrev texts : List Element → List Name
texts [] = []
texts (e ∷ es) = e.name ∷ e.content ∷ texts es

abbrev message : SockMsg
message = record { type = b'M'; dest_ip = codes "10.0.0.7"; file_name = codes "/a b" }

abbrev blank : SockMsg
blank = record { type = 0; dest_ip = []; file_name = [] }

abbrev reply : RplMsg
reply = record { err = b'H' }

-- A document with another root.
abbrev other_root : Option (Option Root)
other_root = some (some (record { name = codes "rpl_msg"; children = [] }))

FitsIn : Option (Option Root) → Type 0
FitsIn (some (some d)) = AllFit plain_format d.children
FitsIn _ = Unit

other_root-fits : (d : Root) → other_root ≡ some (some d) → AllFit plain_format d.children
unfolding FitsIn AllFit
other_root-fits d e = subst FitsIn e tt

doc_to_sock_msg_lem_example :
    (s : ℕ) × (m' : SockMsg) × (doc_to_sock_msg plain_format other_root blank ≡ some (s, m'))
    × Answers plain_format same_name_iff other_root s m'
doc_to_sock_msg_lem_example =
    doc_to_sock_msg_lem plain_format same_name_iff other_root blank other_root-fits

abbrev reply_doc : Option (Option Root)
reply_doc = some (some (rpl_msg_root reply))

doc_to_rpl_msg_lem_example :
    Replies plain_format same_name_iff reply_doc
      (record { err = 0 })
      (doc_to_rpl_msg plain_format reply_doc (record { err = 0 }))
doc_to_rpl_msg_lem_example =
    doc_to_rpl_msg_lem plain_format same_name_iff reply_doc (record { err = 0 })
