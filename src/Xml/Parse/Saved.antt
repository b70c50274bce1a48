-- ===== src/Xml/Parse/Saved.antt =====
-- What the parsers of xml_msg.c find in a document that the library has saved and read again.
use somerubbish.Prelude.{
  ℕ, ◌<◌, ◌≡◌, ◌≢◌, refl, ap, sym, ◌∙◌, true, false, List, [], ◌∷◌, some, length, arith, Bool-cases,
  inl, inr, subst,
}
use somerubbish.Libc.{Name}
use somerubbish.Xml.Library.{
  codes, Element, Root, Libxml, ComparesNames, IsLibxml, elements, IsText, IsXmlName, AllPlain,
  NonZero,
}
use somerubbish.Xml.Message.{
  SockMsg, xml_sock_msg_root, xml_sock_msg_type, xml_sock_msg_dst_ip, xml_sock_msg_fn, u8_to_str,
  sock_msg_root,
}
use somerubbish.Xml.Parse.{inet_addrstrlen, file_path_len, doc_to_sock_msg}
use somerubbish.Xml.Parse.Fields.{
  first_content, AllFit, equal_other, doc_to_sock_msg-HasFields, type-ne-ip, type-ne-fn, ip-ne-fn,
}

-- A message whose texts are plain, do not start with a space and fit into their buffers, and whose
-- type is such a text of one byte.
pub record IsSockMsg (m : SockMsg) : Type 0 where
  pub type : IsText (m.type ∷ [])
  pub dest_ip : IsText m.dest_ip
  pub file_name : IsText m.file_name
  pub ip_fits : length m.dest_ip < inet_addrstrlen
  pub fn_fits : length m.file_name < file_path_len

pub u8_to_str-plain : (c : ℕ) → IsText (c ∷ []) → u8_to_str c ≡ c ∷ []
unfolding u8_to_str
u8_to_str-plain c w = ground (arith, w)

root-IsXmlName : IsXmlName xml_sock_msg_root
root-IsXmlName = (λ e. cc, refl)

type-IsXmlName : IsXmlName xml_sock_msg_type
type-IsXmlName = (λ e. cc, refl)

dst_ip-IsXmlName : IsXmlName xml_sock_msg_dst_ip
dst_ip-IsXmlName = (λ e. cc, refl)

fn-IsXmlName : IsXmlName xml_sock_msg_fn
fn-IsXmlName = (λ e. cc, refl)

module _ (x : Libxml) (v : ComparesNames x) where
  -- Text nodes do not count.
  pub first_content-elements :
      (n : Name) (es : List Element)
      → codes "text" ≢ n
      → first_content x n (elements x es) ≡ first_content x n es
  unfolding first_content elements
  first_content-elements n [] ne = refl
  first_content-elements n (e ∷ es) ne =
      ground (arith, equal_other x v e.name (codes "text") n ne, first_content-elements n es ne)

  text-ne-type : codes "text" ≢ xml_sock_msg_type
  text-ne-type e = ground arith

  text-ne-ip : codes "text" ≢ xml_sock_msg_dst_ip
  text-ne-ip e = cc

  text-ne-fn : codes "text" ≢ xml_sock_msg_fn
  text-ne-fn e = cc

  AllFit-elements : (es : List Element) → AllFit x (elements x es) → AllFit x es
  unfolding AllFit elements
  AllFit-elements [] fit = tt
  AllFit-elements (e ∷ es) fit = elim (Bool-cases (x.equal e.name (codes "text"))) [
    | inl h ↦ (
      λ q. absurd (other xml_sock_msg_dst_ip text-ne-ip h q),
      λ q. absurd (other xml_sock_msg_fn text-ne-fn h q),
      AllFit-elements es (rw h at fit),
    )
    | inr h ↦ let (ip, fn, rest) = rw h at fit in (ip, fn, AllFit-elements es rest)
  ]
    where
      other :
          (n : Name)
          → codes "text" ≢ n
          → x.equal e.name (codes "text") ≡ true
          → x.equal e.name n ≡ true
          → ⊥
      other n ne h q = cc (equal_other x v e.name (codes "text") n ne h, q)

  -- A name compared with itself, and with one that differs.
  pub equal_self : (n : Name) → x.equal n n ≡ true
  equal_self n = (v n n).1 refl

  pub equal_ne : (n m : Name) → n ≢ m → x.equal n m ≡ false
  equal_ne n m ne = equal_other x v n n m ne (equal_self n)

module _ (x : Libxml) (v : IsLibxml x) where
  module _ (m : SockMsg) (w : IsSockMsg m) where
    one_byte : u8_to_str m.type ≡ m.type ∷ []
    one_byte = u8_to_str-plain m.type w.type

    first_type : first_content x xml_sock_msg_type (sock_msg_root m).children ≡ some (m.type ∷ [])
    unfolding first_content sock_msg_root u8_to_str
    first_type = rw (equal_self x v.equal_iff xml_sock_msg_type) (ap some one_byte)

    first_ip : first_content x xml_sock_msg_dst_ip (sock_msg_root m).children ≡ some m.dest_ip
    unfolding first_content sock_msg_root
    first_ip =
        rw
          (
            equal_ne x v.equal_iff xml_sock_msg_type xml_sock_msg_dst_ip type-ne-ip,
            equal_self x v.equal_iff xml_sock_msg_dst_ip,
          )
          refl

    first_fn : first_content x xml_sock_msg_fn (sock_msg_root m).children ≡ some m.file_name
    unfolding first_content sock_msg_root
    first_fn =
        rw
          (
            equal_ne x v.equal_iff xml_sock_msg_type xml_sock_msg_fn type-ne-fn,
            equal_ne x v.equal_iff xml_sock_msg_dst_ip xml_sock_msg_fn ip-ne-fn,
            equal_self x v.equal_iff xml_sock_msg_fn,
          )
          refl

    children_fit : AllFit x (sock_msg_root m).children
    unfolding AllFit sock_msg_root
    children_fit = (
      λ q. cc (equal_ne x v.equal_iff xml_sock_msg_type xml_sock_msg_dst_ip type-ne-ip, q),
      λ q. cc (equal_ne x v.equal_iff xml_sock_msg_type xml_sock_msg_fn type-ne-fn, q),
      (
        λ q. w.ip_fits,
        λ q. cc (equal_ne x v.equal_iff xml_sock_msg_dst_ip xml_sock_msg_fn ip-ne-fn, q),
        (
          λ q. cc (
            equal_ne x v.equal_iff xml_sock_msg_fn xml_sock_msg_dst_ip (λ h. ip-ne-fn (sym h)),
            q,
          ),
          λ q. w.fn_fits,
          tt,
        ),
      ),
    )

    children_plain : AllPlain (sock_msg_root m).children
    unfolding sock_msg_root u8_to_str
    children_plain = (
      type-IsXmlName,
      subst IsText (sym one_byte) w.type,
      (dst_ip-IsXmlName, w.dest_ip, (fn-IsXmlName, w.file_name, tt)),
    )

    children_elements : elements x (sock_msg_root m).children ≡ (sock_msg_root m).children
    unfolding elements sock_msg_root
    children_elements =
        rw
          (
            equal_ne x v.equal_iff xml_sock_msg_type (codes "text")
                (λ h. text-ne-type x v.equal_iff (sym h)),
            equal_ne x v.equal_iff xml_sock_msg_dst_ip (codes "text")
                (λ h. text-ne-ip x v.equal_iff (sym h)),
            equal_ne x v.equal_iff xml_sock_msg_fn (codes "text")
                (λ h. text-ne-fn x v.equal_iff (sym h)),
          )
          refl

    -- A read document with these elements has the fields of the message.
    read_back :
        (d : Root) (m0 : SockMsg)
        → d.name ≡ xml_sock_msg_root
        → elements x d.children ≡ (sock_msg_root m).children
        → doc_to_sock_msg x (some (some d)) m0 ≡ some (0, m)
    read_back d m0 e es =
        doc_to_sock_msg-HasFields x v.equal_iff d m0 m
          (AllFit-elements x v.equal_iff d.children (subst (AllFit x) (sym es) children_fit))
          (
            e,
            (m.type ∷ [], found xml_sock_msg_type (text-ne-type x v.equal_iff) ∙ first_type, refl),
            found xml_sock_msg_dst_ip (text-ne-ip x v.equal_iff) ∙ first_ip,
            found xml_sock_msg_fn (text-ne-fn x v.equal_iff) ∙ first_fn,
          )
      where
        found :
            (n : Name)
            → codes "text" ≢ n
            → first_content x n d.children ≡ first_content x n (sock_msg_root m).children
        found n ne =
            sym (first_content-elements x v.equal_iff n d.children ne) ∙ ap (first_content x n) es

    -- Saved and read, a message comes back, whatever message was there before.
    pub sock_msg_saved :
        (m0 : SockMsg) → doc_to_sock_msg x (x.read (x.save (sock_msg_root m))) m0 ≡ some (0, m)
    unfolding sock_msg_root
    sock_msg_saved m0 =
        let (d, r, e, es) =
          v.read-save (sock_msg_root m) root-IsXmlName children_plain children_elements in
        rw r (read_back d m0 e es)

    pub sock_msg_NonZero : NonZero (x.save (sock_msg_root m))
    unfolding sock_msg_root
    sock_msg_NonZero = v.save-NonZero (sock_msg_root m) root-IsXmlName children_plain
