-- ===== src/Xml.antt =====
-- The messages of the super node as XML: xml_msg.c, xml_msg.h, sn_sckt.h.
pub mod Library
pub mod Message
pub mod Parse
pub mod Buffer
