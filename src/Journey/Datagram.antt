-- ===== src/Journey/Datagram.antt =====
-- The parts of an exchange over UDP: what names the client, and the answer at the ingress.
use ironhide.Base.{ℕ, ◌≡◌, ◌<◌, ◌∙◌, true, some, List, ◌∷◌, ◌++◌, length, refl}
use ironhide.Base.Int.{negsuc}
use ironhide.Base.Text.{Text, codes, c_str}
use ironhide.StdMap.{find}
use ironhide.StdMap.Laws.{OrdersOn}
use ironhide.Packet.{Iphdr, Udphdr}
use ironhide.Sfc.{SfcHeader, IsHeader, encode_header, create_header}
use ironhide.Entry.{ConnectionEntry, entry_lt, entry_eq}
use ironhide.Entry.Order.{entry_eq_iff}
use ironhide.Db.{udp}
use ironhide.Db.Address.{Address}
use ironhide.Db.Roulette.Backend.{Backend}
use ironhide.Endpoint.State.{Endpoint, SockConn, no_address, retrieve_connection_2}
use ironhide.Endpoint.Connections.{HasConnections, connection-delete_entry}
use ironhide.Socket.{Kernel, inet}
use ironhide.Socket.Held.{delivered}
use ironhide.Client.Udp.Delivery.{Accepts, Book}
use ironhide.Process.{Process, ack}
use ironhide.Hop.{chain_entry, hop_header}
use ironhide.Ingress.{UdpPktMngmntArgs, packet_entry, udp_header}
use ironhide.Ingress.Chain as Chain
use ironhide.Ingress.Clients.{chain_entry-udp_header}
use ironhide.Egress.{answer_header}
use ironhide.Egress.Answers.{chain_entry-answer_header}
use ironhide.Journey.{Carries, chain_entry-Carries, IsDatagram}
use ironhide.Journey.Back.{delivered-back}

module _ (int_to_ip : ℕ → Text) (ip_to_int : Text → ℕ)
    (law : (x : ℕ) → int_to_ip (ip_to_int (c_str (int_to_ip x))) ≡ int_to_ip x) where
  p_id-udp_header :
      (headers : Iphdr × Udphdr) (path : List Address)
      → (udp_header int_to_ip ip_to_int headers 0 path).p_id ≡ 0
  unfolding udp_header hop_header create_header
  p_id-udp_header headers path = refl

  -- The header names the client on each part of the way.
  pub entry_outward :
      (h : Iphdr) (u : Udphdr) (path : List Address) (outward : SfcHeader)
      → Carries (udp_header int_to_ip ip_to_int (h, u) 0 path) outward
      → chain_entry int_to_ip outward udp ≡ packet_entry int_to_ip (h, u) (codes "0") udp
  entry_outward h u path outward c =
      chain_entry-Carries int_to_ip (udp_header int_to_ip ip_to_int (h, u) 0 path) outward udp c
      ∙ chain_entry-udp_header int_to_ip ip_to_int h u path law

  pub entry_inward :
      (h : Iphdr) (u : Udphdr) (path path_e : List Address) (outward inward : SfcHeader)
      → Carries (udp_header int_to_ip ip_to_int (h, u) 0 path) outward
      → Carries (answer_header int_to_ip ip_to_int outward 0 path_e) inward
      → chain_entry int_to_ip inward udp ≡ packet_entry int_to_ip (h, u) (codes "0") udp
  entry_inward h u path path_e outward inward c c' =
      chain_entry-Carries int_to_ip (answer_header int_to_ip ip_to_int outward 0 path_e) inward udp
        c'
      ∙ chain_entry-answer_header int_to_ip ip_to_int outward path_e udp law
          (c.p_id ∙ p_id-udp_header (h, u) path)
      ∙ entry_outward h u path outward c

-- The client gets the answer where it has an entry, and then has none.
pub delivered-client {ℓ} :
    (P : ConnectionEntry → Type ℓ) (ord : OrdersOn entry_lt P) (int_to_ip : ℕ → Text)
    (backend : Backend) (kernel : Kernel) (book : Book) (args : UdpPktMngmntArgs)
    (inward : SfcHeader) (answer : List ℕ) (h : Iphdr) (u : Udphdr) (reply : List ℕ)
    (ce : ConnectionEntry) (conn : SockConn) (s : Process)
    → Accepts kernel book
    → args.pkt ≡ encode_header inward ++ answer
    → args.pkt_len ≡ length args.pkt
    → IsHeader inward
    → IsDatagram answer h u reply
    → 0 < length reply
    → chain_entry int_to_ip inward udp ≡ ce
    → P ce
    → HasConnections P ord s.endpoint
    → retrieve_connection_2 s.endpoint ce ≡ conn
    → let s' = (Chain.manage_pkt_from_chain int_to_ip backend kernel args s).1 in
      (delivered s'.calls
        ≡ (reply, inet conn.1) ∷ (ack, inet args.client_address) ∷ delivered s.calls)
      × (retrieve_connection_2 s'.endpoint ce ≡ (negsuc 0, no_address))
delivered-client P ord int_to_ip backend kernel book args inward answer h u reply ce conn s accepts
      packet whole hd d filled entry p kept found =
    let (sent, after) =
      delivered-back int_to_ip backend kernel book args inward answer h u reply s accepts packet
        whole hd d filled in
    let gone = (connection-delete_entry P ord backend ce ce s.endpoint p p kept).0 in
    let same : entry_eq ce ce ≡ true = (entry_eq_iff ce ce).1 refl in
    (rw (entry, found) at sent, rw (after, entry) (rw same at gone))

pub retrieve-connection :
    (e : Endpoint) (ce : ConnectionEntry) (conn : SockConn)
    → find entry_lt ce e.connection_map ≡ some conn
    → retrieve_connection_2 e ce ≡ conn
unfolding retrieve_connection_2
retrieve-connection e ce conn found = rw (found, retrieve_connection_2)
