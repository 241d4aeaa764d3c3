-- ===== src/Hop/Delivery.antt =====
-- A message goes out where the system lets it.
use ironhide.Base.{
  ℕ, ◌+◌, ◌≡◌, refl, true, List, ◌∷◌, ◌++◌, length, length-append, length-replicate, take_all,
  arith,
}
use ironhide.Base.Result.{ok}
use ironhide.Base.Int.{ℤ}
use ironhide.Base.Text.{c_str, to_string}
use ironhide.Wire.{u16}
use ironhide.Packet.{zeros}
use ironhide.Sfc.{SfcHeader, encode_header, prepend_header}
use ironhide.Sfc.RoundTrip.{prepend_header_lem, length-encode_header}
use ironhide.Db.Address.{Address}
use ironhide.Socket.{Kernel, Peer, resolved}
use ironhide.Socket.Held.{delivered, said, connections}
use ironhide.Client.Udp.Delivery.{Accepts, Book, delivered-send_and_wait_response}
use ironhide.Process.{Process, on_calls}
use ironhide.Hop.{forward}

-- The address that a hop of a path has.
abbrev pub hop_peer : Book → Address → Peer
hop_peer book hop = resolved (book (c_str hop.address) (to_string (u16 hop.port))).ai_addr

pub delivered-forward :
    (kernel : Kernel) (book : Book) (pkt : List ℕ) (flh : List Address → SfcHeader)
    (first : Address) (path : List Address) (s : Process)
    → Accepts kernel book
    → let (r, s') = forward kernel pkt (length pkt) flh (first ∷ path) s in
      (r ≡ ok true)
      × (delivered s'.calls
          ≡ (encode_header (flh (first ∷ path)) ++ pkt, hop_peer book first) ∷ delivered s.calls)
      × (said s'.calls ≡ said s.calls)
      × (fd : ℤ) × (connections s'.calls ≡ (fd, hop_peer book first) ∷ connections s.calls)
unfolding forward on_calls
delivered-forward kernel book pkt flh first path s accepts =
    let h = flh (first ∷ path) in
    let out = encode_header h ++ pkt in
    let size : length out ≡ length pkt + 24 =
      omega (arith, length-append (encode_header h) pkt, length-encode_header h) in
    let prepended : prepend_header pkt (length pkt) h (zeros (length pkt + 24)) ≡ ok out =
      prepend_header_lem h pkt (zeros (length pkt + 24)) (length-replicate (length pkt + 24) 0) in
    let (done, sent, quiet, fd, joined) =
      delivered-send_and_wait_response kernel book accepts out (length pkt + 24)
        (c_str first.address) (u16 first.port) s.calls (omega arith) (omega (arith, size)) in
    let whole = rw (take_all (length pkt + 24) out (omega (arith, size))) at sent in
    rw (prepended, done) (refl, whole, quiet, fd, joined)
