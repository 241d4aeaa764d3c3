-- ===== src/Egress/Ports.antt =====
-- The front of a TCP header, which manage_pkt_from_chain reads as a UDP header.
use ironhide.Base.{ℕ, ◌+◌, ◌*◌, ◌/◌, ◌%◌, ◌≡◌, List, [], ◌∷◌, ◌++◌, arith}
use ironhide.Packet.{Tcphdr, IsTcphdr, Udphdr, IsUdphdr, put16, put32, encode_tcphdr, encode_udphdr}

-- What a UDP header is read as from the front of a TCP header.
abbrev pub ports : Tcphdr → Udphdr
ports t = record { source = t.source; dest = t.dest; len = t.seq % 65536; check = t.seq / 65536 }

abbrev pub behind_ports : Tcphdr → List ℕ
behind_ports t = put32 t.ack_seq (
    (t.res1 % 16 + t.doff % 16 * 16)
    ∷ (t.flags % 256)
    ∷ put16 t.window (put16 t.check (put16 t.urg_ptr [])))

pub ports-IsUdphdr : (t : Tcphdr) → IsTcphdr t → IsUdphdr (ports t)
ports-IsUdphdr t v = record {
  source = v.source;
  dest = v.dest;
  len = omega arith;
  check = omega (arith, v.seq);
}

pub encode-ports : (t : Tcphdr) → encode_tcphdr t ≡ encode_udphdr (ports t) ++ behind_ports t
unfolding encode_tcphdr encode_udphdr
encode-ports t =
    let a : t.seq % 65536 % 256 ≡ t.seq % 256 = omega arith in
    let b : t.seq % 65536 / 256 % 256 ≡ t.seq / 256 % 256 = omega arith in
    let c : t.seq / 65536 / 256 % 256 ≡ t.seq / 16777216 % 256 = omega arith in rw (a, b, c)
