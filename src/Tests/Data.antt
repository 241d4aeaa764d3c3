-- ===== src/Tests/Data.antt =====
-- Concrete headers, entries and texts.
use ironhide.Base.{ℕ, ◌%◌, List, [], ◌∷◌, length, arith}
use ironhide.Base.Text.{Text, codes}
use ironhide.Db.{ingress_t, egress_t, tcp}
use ironhide.Db.Query.{Endpoint}
use ironhide.Packet.{Iphdr, IsIphdr, Tcphdr, IsTcphdr, Udphdr, IsUdphdr}
use ironhide.Sfc.{SfcHeader, IsHeader}
use ironhide.Entry.{ConnectionEntry}

-- A header of 40 bytes of UDP from 10.0.0.1 to 10.0.0.2.
abbrev pub ip : Iphdr
ip = record {
  ihl = 5;
  version = 4;
  tos = 0;
  tot_len = 10240;
  id = 7;
  frag_off = 64;
  ttl = 64;
  protocol = 17;
  check = 4660;
  saddr = 16777226;
  daddr = 33554442;
}

pub ip-IsIphdr : IsIphdr ip
ip-IsIphdr = omega arith

-- The same with one word of options.
abbrev pub long_ip : Iphdr
long_ip = record ip { ihl = 6 }

pub long_ip-IsIphdr : IsIphdr long_ip
long_ip-IsIphdr = omega arith

abbrev pub tcp_header : Tcphdr
tcp_header = record {
  source = 36895;
  dest = 20480;
  seq = 1;
  ack_seq = 2;
  res1 = 0;
  doff = 6;
  flags = 16;
  window = 255;
  check = 99;
  urg_ptr = 0;
}

pub tcp_header-IsTcphdr : IsTcphdr tcp_header
tcp_header-IsTcphdr = omega arith

abbrev pub udp_header : Udphdr
udp_header = record { source = 36895; dest = 13568; len = 2560; check = 0 }

pub udp_header-IsUdphdr : IsUdphdr udp_header
udp_header-IsUdphdr = omega arith

abbrev pub word : List ℕ
word = 1 ∷ 2 ∷ 3 ∷ 4 ∷ []

abbrev pub sfc : SfcHeader
sfc = record {
  ver = 0;
  oam = 0;
  u1 = 0;
  ttl = 63;
  len = 0;
  u2 = 0;
  md_type = 1;
  prot = 1;
  p_id = 300;
  si = 2;
  source_address = 16777226;
  destination_address = 33554442;
  source_port = 8080;
  destination_port = 53;
  direction_flag = 1;
  other = 0;
}

pub sfc-IsHeader : IsHeader sfc
sfc-IsHeader = omega arith

-- An address for each text, for a function in the place of inet_addr.
abbrev pub address_by_length : Text → ℕ
address_by_length t = length t % 4294967296

abbrev pub entry : ConnectionEntry
entry = record {
  ip_src = codes "10.0.0.1";
  ip_dst = codes "10.0.0.2";
  port_src = 8080;
  port_dst = 53;
  sfcid = codes "0";
  prt = tcp;
}

-- The same client from another port.
abbrev pub other_entry : ConnectionEntry
other_entry = record entry { port_src = 8081 }

abbrev pub ingress : Endpoint
ingress = record { ip = codes "10.0.0.3:80"; socket_id = codes "5"; type_of_proxy = ingress_t }

abbrev pub egress : Endpoint
egress = record { ip = codes "10.0.0.4:80"; socket_id = codes "6"; type_of_proxy = egress_t }
