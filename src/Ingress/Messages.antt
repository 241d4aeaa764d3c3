-- ===== src/Ingress/Messages.antt =====
-- The message that goes from the ingress to the first hop of the chain.
use ironhide.Base.{ℕ, ◌+◌, ◌≡◌, ◌<◌, ◌⊎◌, List, ◌∷◌, length, true, if◌then◌else◌}
use mathlib.Core.List.{Mem}
use ironhide.Base.Result.{ok, err, exit_failure}
use ironhide.Base.Text.{Text, c_str, to_string}
use ironhide.Wire.{u16}
use ironhide.Packet.{Iphdr, Udphdr}
use ironhide.Sfc.{IsHeader, retrieve_header, retrieve_payload}
use ironhide.Db.Address.{Address}
use ironhide.Socket.{Kernel, Addrinfo, getaddrinfo, resolved, sock_dgram, is_zero}
use ironhide.Socket.Held.{held, delivered, asked}
use ironhide.Client.Loop.{NoZero, kinds_of}
use ironhide.Process.{Process}
use ironhide.Hop.{forward}
use ironhide.Hop.Messages as Hop
use ironhide.Hop.Messages.{hop_header-IsHeader}
use ironhide.Ingress.{udp_header}

pub udp_header-IsHeader :
    (int_to_ip : ℕ → Text) (ip_to_int : Text → ℕ) (headers : Iphdr × Udphdr) (p_id : ℕ)
    (path : List Address)
    → ((t : Text) → ip_to_int t < 4294967296)
    → headers.1.source < 65536
    → headers.1.dest < 65536
    → IsHeader (udp_header int_to_ip ip_to_int headers p_id path)
unfolding udp_header
udp_header-IsHeader int_to_ip ip_to_int headers p_id path address source dest =
    hop_header-IsHeader ip_to_int p_id (c_str (int_to_ip headers.0.saddr)) headers.1.source
      (c_str (int_to_ip headers.0.daddr)) headers.1.dest 0 path address source dest

-- With a path, a packet that enters goes out once, in a message to one of the addresses that the
-- system gives for the first one of the path, from which that hop reads the header that the ingress
-- made and the whole packet; or not at all, after a socket was asked for each of these addresses.
-- No socket stays open, and the endpoint is as before. Only if the system gives no address does the
-- program exit. Addresses have 32 bits and ports 16, and
-- `socket` never gives the descriptor 0.
pub retrieve-forward :
    (int_to_ip : ℕ → Text) (ip_to_int : Text → ℕ) (kernel : Kernel) (pkt : List ℕ)
    (headers : Iphdr × Udphdr) (p_id : ℕ) (first : Address) (path : List Address) (s : Process)
    → NoZero kernel
    → ((t : Text) → ip_to_int t < 4294967296)
    → headers.1.source < 65536
    → headers.1.dest < 65536
    → let flh = udp_header int_to_ip ip_to_int headers p_id in
      let found =
        kernel s.calls
          (getaddrinfo (c_str first.address) (to_string (u16 first.port)) sock_dgram) in
      let (r, s') = forward kernel pkt (length pkt) flh (first ∷ path) s in
      (r ≡ (if is_zero found.result then ok true else err exit_failure))
      × (s'.endpoint ≡ s.endpoint)
      × (held s'.calls ≡ held s.calls)
      × (out : List ℕ) × (retrieve_header out ≡ ok (flh (first ∷ path)))
      × (retrieve_payload out (length pkt + 24) ≡ ok pkt)
      × (((delivered s'.calls ≡ delivered s.calls)
            × (is_zero found.result ≡ true
                → asked s'.calls ≡ kinds_of found.addresses (asked s.calls)))
          ⊎ ((a : Addrinfo) × Mem a found.addresses
              × (delivered s'.calls ≡ (out, resolved a.ai_addr) ∷ delivered s.calls)))
retrieve-forward int_to_ip ip_to_int kernel pkt headers p_id first path s no_zero address source
      dest =
    Hop.retrieve-forward kernel pkt (udp_header int_to_ip ip_to_int headers p_id) first path s
      no_zero
      (udp_header-IsHeader int_to_ip ip_to_int headers p_id (first ∷ path) address source dest)
