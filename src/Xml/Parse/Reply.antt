-- ===== src/Xml/Parse/Reply.antt =====
-- The reply messages of xml_msg.c, parsed from any document and from one that was saved.
use somerubbish.Prelude.{
  ℕ, ◌≡◌, ◌≢◌, ◌⊎◌, refl, ap, sym, ◌∙◌, true, false, List, [], ◌∷◌, Option, none, some, get_or,
  arith, Bool-cases, inl, inr, subst,
}
use somerubbish.Libc.{Name}
use somerubbish.Xml.Library.{
  codes, Element, Root, Libxml, IsLibxml, elements, IsText, IsXmlName, ComparesNames, NonZero,
}
use somerubbish.Xml.Message.{RplMsg, xml_rpl_msg_root, xml_rpl_msg_err, u8_to_str, rpl_msg_root}
use somerubbish.Xml.Parse.{rpl_loop, doc_to_rpl_msg}
use somerubbish.Xml.Parse.Fields.{first_content}
use somerubbish.Xml.Parse.Saved.{first_content-elements, equal_self, equal_ne, u8_to_str-plain}

root-IsXmlName : IsXmlName xml_rpl_msg_root
root-IsXmlName = (λ e. cc, refl)

err-IsXmlName : IsXmlName xml_rpl_msg_err
err-IsXmlName = (λ e. cc, refl)

module _ (x : Libxml) (v : ComparesNames x) where
  -- The document is a reply whose first error child starts with the byte of the message.
  abbrev pub HasError : Root → RplMsg → Type 0
  HasError d m =
      (d.name ≡ xml_rpl_msg_root)
      × ((s : Name) × (first_content x xml_rpl_msg_err d.children ≡ some s)
          × (m.err ≡ get_or s 0 0))

  rpl_loop-none :
      (m : RplMsg) (es : List Element)
      → first_content x xml_rpl_msg_err es ≡ none
      → rpl_loop x false m es ≡ (false, m)
  unfolding rpl_loop first_content
  rpl_loop-none m [] e = refl
  rpl_loop-none m (c ∷ es) e = ground (arith, e, rpl_loop-none m es)

  rpl_loop-some :
      (m : RplMsg) (es : List Element) (s : Name)
      → first_content x xml_rpl_msg_err es ≡ some s
      → rpl_loop x false m es ≡ (true, record { err = get_or s 0 0 })
  unfolding rpl_loop first_content
  rpl_loop-some m [] s e = ground (arith, e)
  rpl_loop-some m (c ∷ es) s e = ground (arith, e, rpl_loop-some m es s)

  pub doc_to_rpl_msg-HasError :
      (d : Root) (m m' : RplMsg) → HasError d m' → doc_to_rpl_msg x (some (some d)) m ≡ (0, m')
  unfolding doc_to_rpl_msg
  doc_to_rpl_msg-HasError d m m' (e, (s, f, q)) =
      rw ((v d.name xml_rpl_msg_root).1 e, rpl_loop-some m d.children s f) (ground (arith, q))

  -- What was read is no reply with an error.
  abbrev pub LacksError : Option (Option Root) → Type 0
  LacksError none = Unit
  LacksError (some none) = Unit
  LacksError (some (some d)) =
      d.name ≡ xml_rpl_msg_root → first_content x xml_rpl_msg_err d.children ≡ none

  -- The two answers to what was read.
  abbrev pub Replies : Option (Option Root) → RplMsg → ℕ × RplMsg → Type 0
  Replies r m a =
      ((a ≡ (4, m)) × LacksError r)
      ⊎ ((m' : RplMsg) × (a ≡ (0, m')) × ((d : Root) × (r ≡ some (some d)) × HasError d m'))

  -- Whatever was read: a reply gives the first byte of its first error child with the status 0, and
  -- the status is 4, with the message as it was, where there is no document, no root, another root,
  -- or no error child.
  pub doc_to_rpl_msg_lem :
      (r : Option (Option Root)) (m : RplMsg) → Replies r m (doc_to_rpl_msg x r m)
  unfolding doc_to_rpl_msg
  doc_to_rpl_msg_lem none m = inl (refl, tt)
  doc_to_rpl_msg_lem (some none) m = inl (refl, tt)
  doc_to_rpl_msg_lem (some (some d)) m = elim (Bool-cases (x.equal d.name xml_rpl_msg_root)) [
    | inr b ↦
        let other : d.name ≢ xml_rpl_msg_root = λ q. cc ((v d.name xml_rpl_msg_root).1 q, b) in
        inl (rw b refl, λ q. absurd (other q))
    | inl b ↦
        found (first_content x xml_rpl_msg_err d.children) refl ((v d.name xml_rpl_msg_root).0 b)
  ]
    where
      found :
          (o : Option Name)
          → first_content x xml_rpl_msg_err d.children ≡ o
          → d.name ≡ xml_rpl_msg_root
          → Replies (some (some d)) m (doc_to_rpl_msg x (some (some d)) m)
      found none f e =
          inl (rw ((v d.name xml_rpl_msg_root).1 e, rpl_loop-none m d.children f) refl, λ _. f)
      found (some s) f e =
          let m' : RplMsg = record { err = get_or s 0 0 } in
          inr (m', doc_to_rpl_msg-HasError d m m' (e, (s, f, refl)), (d, refl, (e, (s, f, refl))))

module _ (x : Libxml) (v : IsLibxml x) where
  text-ne-err : codes "text" ≢ xml_rpl_msg_err
  text-ne-err e = cc

  -- Saved and read, a reply with a plain byte comes back.
  pub rpl_msg_saved :
      (m m0 : RplMsg)
      → IsText (m.err ∷ [])
      → doc_to_rpl_msg x (x.read (x.save (rpl_msg_root m))) m0 ≡ (0, m)
  unfolding rpl_msg_root first_content elements
  rpl_msg_saved m m0 w =
      let (d, r, e, es) =
        v.read-save (rpl_msg_root m) root-IsXmlName
          (err-IsXmlName, subst IsText (sym one_byte) w, tt)
          (rw (equal_ne x v.equal_iff xml_rpl_msg_err (codes "text") (λ h. text-ne-err (sym h)))
            refl) in
      rw r (
        doc_to_rpl_msg-HasError x v.equal_iff d m0 m (
          e,
          (
            m.err ∷ [],
            sym (first_content-elements x v.equal_iff xml_rpl_msg_err d.children text-ne-err)
                ∙ ap (first_content x xml_rpl_msg_err) es
                ∙ rw (equal_self x v.equal_iff xml_rpl_msg_err) (ap some one_byte),
            refl,
          ),
        ))
    where
      one_byte : u8_to_str m.err ≡ m.err ∷ []
      one_byte = u8_to_str-plain m.err w

  pub rpl_msg_NonZero : (m : RplMsg) → IsText (m.err ∷ []) → NonZero (x.save (rpl_msg_root m))
  unfolding rpl_msg_root
  rpl_msg_NonZero m w =
      v.save-NonZero (rpl_msg_root m) root-IsXmlName
        (err-IsXmlName, subst IsText (sym (u8_to_str-plain m.err w)) w, tt)
