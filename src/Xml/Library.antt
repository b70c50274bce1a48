-- ===== src/Xml/Library.antt =====
-- What xml_msg.c takes from libxml2: a document in memory, its text, and the comparison of names. An
-- element is a name with the text that xmlNodeGetContent gives; a document may have no root.
use Prim.Native.Char.{code}
use Prim.Native.String.{String}
use somerubbish.Prelude.{
  ℕ, ◌≤◌, ◌<◌, ◌≡◌, ◌≢◌, ◌↔◌, Bool, true, List, [], ◌∷◌, Option, some, if◌then◌else◌, leb, ◌==◌,
  ◌&&◌, ◌||◌,
}
use somerubbish.Libc.{Name}

-- The bytes of a text of the source.
abbrev pub codes : String → Name
codes String.[] = []
codes (String.◌∷◌ c s) = code c ∷ codes s

pub record Element : Type 0 where
  pub name : Name
  pub content : Name

pub record Root : Type 0 where
  pub name : Name
  pub children : List Element

-- xmlSaveFormatFileEnc, with the bytes that it writes; xmlReadFile and xmlReadFd, which give no
-- document, one with no root, or one with a root; and `xmlStrcmp(...) == 0`.
pub record Libxml : Type 0 where
  pub save : Root → List ℕ
  pub read : List ℕ → Option (Option Root)
  pub equal : Name → Name → Bool

-- Printable ASCII without the bytes of markup.
abbrev pub IsPlain : Name → Type 0
IsPlain [] = Unit
IsPlain (c ∷ cs) = (32 ≤ c) × (c < 127) × (c ≢ b'&') × (c ≢ b'<') × (c ≢ b'>') × IsPlain cs

-- A text for an element: plain, and with a first byte that is not a space.
abbrev pub IsText : Name → Type 0
IsText [] = ⊥
IsText (c ∷ cs) = (33 ≤ c) × IsPlain (c ∷ cs)

-- ASCII letters and underscores, which an XML name may have at every place.
abbrev pub is_name_byte : ℕ → Bool
is_name_byte c = (leb 97 c && leb c 122) || (leb 65 c && leb c 90) || (c == b'_')

abbrev pub are_name_bytes : Name → Bool
are_name_bytes [] = true
are_name_bytes (c ∷ cs) = is_name_byte c && are_name_bytes cs

abbrev pub IsXmlName : Name → Type 0
IsXmlName n = (n ≢ []) × (are_name_bytes n ≡ true)

abbrev pub AllPlain : List Element → Type 0
AllPlain [] = Unit
AllPlain (e ∷ es) = IsXmlName e.name × IsText e.content × AllPlain es

-- No byte is zero.
abbrev pub NonZero : List ℕ → Type 0
NonZero [] = Unit
NonZero (c ∷ cs) = (0 < c) × NonZero cs

-- The children without the text nodes, in which the indentation of a document stands.
unfoldable pub elements : Libxml → List Element → List Element
elements x [] = []
elements x (e ∷ es) = if x.equal e.name (codes "text") then elements x es else e ∷ elements x es

-- Names are compared byte by byte.
abbrev pub ComparesNames : Libxml → Type 0
ComparesNames x = (a b : Name) → (x.equal a b ≡ true) ↔ (a ≡ b)

-- What libxml2 says of these: names are compared byte by byte, and a document whose elements have
-- names of letters and underscores, and the children plain texts, is the same but for its text
-- nodes when it is saved with indentation and read again.
pub record IsLibxml (x : Libxml) : Type 0 where
  pub equal_iff : ComparesNames x
  pub save-NonZero : (d : Root) → IsXmlName d.name → AllPlain d.children → NonZero (x.save d)
  pub read-save :
      (d : Root)
      → IsXmlName d.name
      → AllPlain d.children
      → elements x d.children ≡ d.children
      → (d' : Root) × (x.read (x.save d) ≡ some (some d'))
        × (d'.name ≡ d.name)
        × (elements x d'.children ≡ d.children)
