-- ===== src/Hop/Messages.antt =====
-- The message that goes to the first hop of a path.
use ironhide.Base.{
  ℕ, ◌+◌, ◌≡◌, ◌<◌, ◌⊎◌, refl, true, Bool-cases, inl, inr, List, ◌∷◌, ◌++◌, length, length-append,
  length-replicate, take_all, arith, if◌then◌else◌,
}
use mathlib.Core.List.{Mem}
use ironhide.Base.Result.{ok, err, exit_failure}
use ironhide.Base.Text.{Text, c_str, to_string}
use ironhide.Wire.{u16}
use ironhide.Packet.{zeros}
use ironhide.Sfc.{
  SfcHeader, IsHeader, encode_header, prepend_header, retrieve_header, retrieve_payload,
}
use ironhide.Sfc.RoundTrip.{
  prepend_header_lem, retrieve_header_lem, retrieve_payload_lem, length-encode_header,
  create_header-IsHeader,
}
use ironhide.Db.Address.{Address}
use ironhide.Socket.{Kernel, Addrinfo, getaddrinfo, resolved, sock_dgram, is_zero}
use ironhide.Socket.Held.{held, delivered, asked}
use ironhide.Client.Loop.{NoZero, kinds_of}
use ironhide.Client.Udp.Sockets.{send_and_wait_response_lem}
use ironhide.Process.{Process, on_calls}
use ironhide.Hop.{hop_header, forward}

pub hop_header-IsHeader :
    (ip_to_int : Text → ℕ) (p_id : ℕ) (src : Text) (sport : ℕ) (dst : Text) (dport direction : ℕ)
    (path : List Address)
    → ((t : Text) → ip_to_int t < 4294967296)
    → sport < 65536
    → dport < 65536
    → IsHeader (hop_header ip_to_int p_id src sport dst dport direction path)
unfolding hop_header
hop_header-IsHeader ip_to_int p_id src sport dst dport direction path address hs hd =
    create_header-IsHeader ip_to_int address p_id 0 src sport dst dport (u16 (length path + 2))
      direction hs hd

-- What any handler sends, by a header whose fields fit.
pub retrieve-forward :
    (kernel : Kernel) (pkt : List ℕ) (flh : List Address → SfcHeader) (first : Address)
    (path : List Address) (s : Process)
    → NoZero kernel
    → IsHeader (flh (first ∷ path))
    → let found =
        kernel s.calls
          (getaddrinfo (c_str first.address) (to_string (u16 first.port)) sock_dgram) in
      let (r, s') = forward kernel pkt (length pkt) flh (first ∷ path) s in
      (r ≡ (if is_zero found.result then ok true else err exit_failure))
      × (s'.endpoint ≡ s.endpoint)
      × (held s'.calls ≡ held s.calls)
      × (out : List ℕ) × (retrieve_header out ≡ ok (flh (first ∷ path)))
      × (retrieve_payload out (length pkt + 24) ≡ ok pkt)
      × (((delivered s'.calls ≡ delivered s.calls)
            × (is_zero found.result ≡ true
                → asked s'.calls ≡ kinds_of found.addresses (asked s.calls)))
          ⊎ ((a : Addrinfo) × Mem a found.addresses
              × (delivered s'.calls ≡ (out, resolved a.ai_addr) ∷ delivered s.calls)))
unfolding forward on_calls
retrieve-forward kernel pkt flh first path s no_zero v =
    let h = flh (first ∷ path) in
    let out = encode_header h ++ pkt in
    let found =
      kernel s.calls (getaddrinfo (c_str first.address) (to_string (u16 first.port)) sock_dgram) in
    let size : length out ≡ length pkt + 24 =
      omega (arith, length-append (encode_header h) pkt, length-encode_header h) in
    let prepended : prepend_header pkt (length pkt) h (zeros (length pkt + 24)) ≡ ok out =
      prepend_header_lem h pkt (zeros (length pkt + 24)) (length-replicate (length pkt + 24) 0) in
    let client =
      send_and_wait_response_lem kernel out (length pkt + 24) (c_str first.address) (u16 first.port)
        s.calls no_zero (omega (arith, size)) in
    let sent = rw (take_all (length pkt + 24) out (omega (arith, size))) at client.2 in
    let header = retrieve_header_lem h pkt v in
    let payload = retrieve_payload_lem h pkt in
    elim (Bool-cases (is_zero found.result)) [
      | inl e ↦
          let returns = rw e at client.0 in
          rw (prepended, returns, e) (refl, refl, client.1, out, header, payload, rw e at sent)
      | inr e ↦
          let exits = rw e at client.0 in
          rw (prepended, exits, e) (refl, refl, client.1, out, header, payload, rw e at sent)
    ]
