-- ===== src/DataPlane/Message.antt =====
-- The parts of a parsed `dns.update.UpdateMessage` that the data plane reads, and the DNS codes.
use astropath_dns_relay.Prelude.{ℕ, Option, List, Text}

-- `dns.rcode.Rcode`
pub data Rcode : Type 0 where
  noerror servfail refused notauth : Rcode

-- An rdata is a `TXT` with its character-strings (byte lists), or of another class.
pub data Rdata : Type 0 where
  txt : List Text → Rdata
  other : Rdata

-- `deleting` holds the update class of RFC 2136, or `none` for an add.
pub record Rrset (N : Type 0) : Type 0 where
  pub name : N
  pub rdtype : ℕ
  pub deleting : Option ℕ
  pub rdatas : List Rdata

-- `zone` lists the owners of the ZONE section's rrsets.
pub record UpdateMessage (N : Type 0) : Type 0 where
  pub zone : List N
  pub update : List (Rrset N)
  pub keyname : Option N

abbrev pub rdatatype_txt : ℕ
rdatatype_txt = 16

abbrev pub rdataclass_none : ℕ
rdataclass_none = 254

abbrev pub rdataclass_any : ℕ
rdataclass_any = 255
