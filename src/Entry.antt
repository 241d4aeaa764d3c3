-- ===== src/Entry.antt =====
-- src/endpoint/connectionentry.h and connectionentry.cpp: what identifies a connection.
pub mod Maps
pub mod Order
use ironhide.Base.{ℕ, Bool, ◌&&◌, ◌||◌, ltb, ◌==◌}
use ironhide.Base.Text.{Text, text_eq, text_lt}
use ironhide.Db.{ProtocolType, protocol_number}

-- class ConnectionEntry; its getters are the fields.
pub record ConnectionEntry : Type 0 where
  pub ip_src : Text
  pub ip_dst : Text
  pub port_src : ℕ
  pub port_dst : ℕ
  pub sfcid : Text
  pub prt : ProtocolType

-- operator==
unfoldable pub entry_eq : ConnectionEntry → ConnectionEntry → Bool
entry_eq a b =
    protocol_number a.prt == protocol_number b.prt
    && text_eq a.ip_src b.ip_src
    && text_eq a.ip_dst b.ip_dst
    && a.port_src == b.port_src
    && a.port_dst == b.port_dst
    && text_eq a.sfcid b.sfcid

-- operator<
unfoldable pub entry_lt : ConnectionEntry → ConnectionEntry → Bool
entry_lt a b =
    ltb (protocol_number a.prt) (protocol_number b.prt)
    || text_lt a.ip_src b.ip_src
    || text_lt a.ip_dst b.ip_dst
    || ltb a.port_src b.port_src
    || ltb a.port_dst b.port_dst
    || text_lt a.sfcid b.sfcid
