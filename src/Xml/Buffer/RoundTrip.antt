-- ===== src/Xml/Buffer/RoundTrip.antt =====
-- A message written to a buffer by xml_msg.c and read from it.
use somerubbish.Prelude.{true}
use somerubbish.Xml.Buffer.{Env}

abbrev pub works : Env
works = record { pipe_ok = true; io_ok = true }
