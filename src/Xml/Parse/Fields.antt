-- ===== src/Xml/Parse/Fields.antt =====
-- What the parsers of xml_msg.c find: for each field the first child with its name.
use somerubbish.Prelude.{
  ℕ, ◌<◌, ◌⊎◌, ◌≡◌, ◌≢◌, refl, sym, ◌∙◌, Bool, true, false, ◌||◌, List, [], ◌∷◌, Option, none, some,
  if◌then◌else◌, length, get_or, arith, Bool-cases, inl, inr,
}
use somerubbish.Libc.{Name}
use somerubbish.Xml.Library.{Element, Root, Libxml, ComparesNames}
use somerubbish.Xml.Message.{
  SockMsg, xml_sock_msg_root, xml_sock_msg_type, xml_sock_msg_dst_ip, xml_sock_msg_fn,
}
use somerubbish.Xml.Parse.{
  inet_addrstrlen, file_path_len, ParseOk, is_all, none_ok, sock_round, sock_loop, status,
  doc_to_sock_msg,
}

-- The content of the first child with a name.
unfoldable pub first_content : Libxml → Name → List Element → Option Name
first_content x n [] = none
first_content x n (e ∷ es) = if x.equal e.name n then some e.content else first_content x n es

abbrev pub is_some {ℓ} : {A : Type ℓ} → Option A → Bool
is_some none = false
is_some (some a) = true

-- The field after the loop: a field that is set stays, and a child that is found sets it.
abbrev pub field {ℓ} : {A : Type ℓ} → Bool → A → Option Name → (Name → A) → A
field true old found f = old
field false old none f = old
field false old (some s) f = f s

-- The texts that are copied fit into their buffers.
unfoldable pub AllFit : Libxml → List Element → Type 0
AllFit x [] = Unit
AllFit x (e ∷ es) =
    (x.equal e.name xml_sock_msg_dst_ip ≡ true → length e.content < inet_addrstrlen)
    × (x.equal e.name xml_sock_msg_fn ≡ true → length e.content < file_path_len)
    × AllFit x es

pub type-ne-ip : xml_sock_msg_type ≢ xml_sock_msg_dst_ip
type-ne-ip e = cc

pub type-ne-fn : xml_sock_msg_type ≢ xml_sock_msg_fn
type-ne-fn e = cc

pub ip-ne-fn : xml_sock_msg_dst_ip ≢ xml_sock_msg_fn
ip-ne-fn e = cc

module _ (x : Libxml) (v : ComparesNames x) where
  -- A name is at most one of two that differ.
  pub equal_other : (n a b : Name) → a ≢ b → x.equal n a ≡ true → x.equal n b ≡ false
  equal_other n a b ne e = elim (Bool-cases (x.equal n b)) [
    | inl h ↦ absurd (ne (sym ((v n a).0 e) ∙ (v n b).0 h))
    | inr h ↦ h
  ]

  abbrev pub expected_ok : ParseOk → List Element → ParseOk
  expected_ok p es = record {
    type = p.type || is_some (first_content x xml_sock_msg_type es);
    dst_ip = p.dst_ip || is_some (first_content x xml_sock_msg_dst_ip es);
    fn = p.fn || is_some (first_content x xml_sock_msg_fn es);
  }

  abbrev pub expected_msg : ParseOk → SockMsg → List Element → SockMsg
  expected_msg p m es = record {
    type = field p.type m.type (first_content x xml_sock_msg_type es) (λ s. get_or s 0 0);
    dest_ip = field p.dst_ip m.dest_ip (first_content x xml_sock_msg_dst_ip es) (λ s. s);
    file_name = field p.fn m.file_name (first_content x xml_sock_msg_fn es) (λ s. s);
  }

  sock_loop_lem :
      (p : ParseOk) (m : SockMsg) (es : List Element)
      → AllFit x es
      → sock_loop x p m es ≡ some (expected_ok p es, expected_msg p m es)
  unfolding sock_loop sock_round first_content AllFit
  sock_loop_lem p m [] fit = ground arith
  sock_loop_lem p m (e ∷ es) (ip, fn, fit) = ground (
    arith,
    ip,
    fn,
    equal_other e.name xml_sock_msg_type xml_sock_msg_dst_ip type-ne-ip,
    equal_other e.name xml_sock_msg_type xml_sock_msg_fn type-ne-fn,
    equal_other e.name xml_sock_msg_dst_ip xml_sock_msg_fn ip-ne-fn,
    sock_loop_lem p m es fit,
    sock_loop_lem (record p { type = true }) (record m { type = get_or e.content 0 0 }) es fit,
    sock_loop_lem (record p { dst_ip = true }) (record m { dest_ip = e.content }) es fit,
    sock_loop_lem (record p { fn = true }) (record m { file_name = e.content }) es fit,
  )

  -- All three fields are found.
  abbrev pub HasFields : Root → SockMsg → Type 0
  HasFields d m =
      (d.name ≡ xml_sock_msg_root)
      × ((s : Name) × (first_content x xml_sock_msg_type d.children ≡ some s)
          × (m.type ≡ get_or s 0 0))
      × (first_content x xml_sock_msg_dst_ip d.children ≡ some m.dest_ip)
      × (first_content x xml_sock_msg_fn d.children ≡ some m.file_name)

  doc_to_sock_msg-root :
      (d : Root) (m : SockMsg)
      → AllFit x d.children
      → d.name ≡ xml_sock_msg_root
      → doc_to_sock_msg x (some (some d)) m
        ≡ some
            (status (is_all (expected_ok none_ok d.children)) 0, expected_msg none_ok m d.children)
  unfolding doc_to_sock_msg
  doc_to_sock_msg-root d m fit e =
      rw ((v d.name xml_sock_msg_root).1 e, sock_loop_lem none_ok m d.children fit) refl

  -- A document with the root and the three fields gives them, with the status 0.
  pub doc_to_sock_msg-HasFields :
      (d : Root) (m m' : SockMsg)
      → AllFit x d.children
      → HasFields d m'
      → doc_to_sock_msg x (some (some d)) m ≡ some (0, m')
  doc_to_sock_msg-HasFields d m m' fit (e, (s, t, q), ip, fn) =
      doc_to_sock_msg-root d m fit e ∙ rw (t, ip, fn) (ground (arith, q))

  -- What was read is no document with the root and the three fields.
  abbrev pub LacksFields : Option (Option Root) → Type 0
  LacksFields none = Unit
  LacksFields (some none) = Unit
  LacksFields (some (some d)) =
      d.name ≡ xml_sock_msg_root
      → (first_content x xml_sock_msg_type d.children ≡ none)
        ⊎ (first_content x xml_sock_msg_dst_ip d.children ≡ none)
        ⊎ (first_content x xml_sock_msg_fn d.children ≡ none)

  -- A status that says which of both the document is.
  abbrev pub Answers : Option (Option Root) → (s : ℕ) → SockMsg → Type 0
  Answers r s m =
      ((s ≡ 4) × LacksFields r) ⊎ ((s ≡ 0) × ((d : Root) × (r ≡ some (some d)) × HasFields d m))

  found :
      (d : Root) (m : SockMsg)
      → d.name ≡ xml_sock_msg_root
      → (t ip fn : Option Name) → first_content x xml_sock_msg_type d.children ≡ t
      → first_content x xml_sock_msg_dst_ip d.children ≡ ip
      → first_content x xml_sock_msg_fn d.children ≡ fn
      → Answers
          (some (some d))
          (status (is_all (expected_ok none_ok d.children)) 0)
          (expected_msg none_ok m d.children)
  found d m q none ip fn a b c = inl (rw a refl, λ _. inl a)
  found d m q (some t) none fn a b c = inl (rw (a, b) refl, λ _. inr (inl b))
  found d m q (some t) (some ip) none a b c = inl (rw (a, b, c) refl, λ _. inr (inr c))
  found d m q (some t) (some ip) (some fn) a b c =
      inr (rw (a, b, c) refl, (d, refl, (q, (t, a, rw a refl), b ∙ rw b refl, c ∙ rw c refl)))

  -- Whatever was read, where its texts fit into their buffers: a document with the root and the
  -- three fields gives them with the status 0, and the status is 4 where there is no document, no
  -- root, another root, or no child with the name of one of the fields.
  pub doc_to_sock_msg_lem :
      (r : Option (Option Root)) (m : SockMsg)
      → ((d : Root) → r ≡ some (some d) → AllFit x d.children)
      → (s : ℕ) × (m' : SockMsg) × (doc_to_sock_msg x r m ≡ some (s, m')) × Answers r s m'
  unfolding doc_to_sock_msg
  doc_to_sock_msg_lem none m fit = (4, m, refl, inl (refl, tt))
  doc_to_sock_msg_lem (some none) m fit = (4, m, refl, inl (refl, tt))
  doc_to_sock_msg_lem (some (some d)) m fit = elim (Bool-cases (x.equal d.name xml_sock_msg_root)) [
    | inr b ↦
        let other : d.name ≢ xml_sock_msg_root = λ q. cc ((v d.name xml_sock_msg_root).1 q, b) in
        (4, m, rw b refl, inl (refl, λ q. absurd (other q)))
    | inl b ↦
        let q = (v d.name xml_sock_msg_root).0 b in
        (
          _,
          _,
          doc_to_sock_msg-root d m (fit d refl) q,
          found d m q (first_content x xml_sock_msg_type d.children)
              (first_content x xml_sock_msg_dst_ip d.children)
              (first_content x xml_sock_msg_fn d.children) refl refl refl,
        )
  ]
