-- ===== src/Client/Tcp.antt =====
-- src/client/clienttcp.cpp
pub mod Delivery
pub mod Sockets
use ironhide.Base.{ℕ, Bool, true, List, [], ◌∷◌, if◌then◌else◌, ◌||◌, ◌&&◌, not}
use ironhide.Base.Result.{exit_failure}
use ironhide.Base.Int.{ℤ, negsuc}
use ironhide.Base.Exec.{Exec, pure, raise, lift, ◌>>=◌, ◌>>◌}
use ironhide.Base.Text.{Text}
use ironhide.Wire.{htons}
use ironhide.Socket.{
  Kernel, Calls, Addrinfo, SockaddrIn, inet_pton, socket, send, receive, close, call, call_,
  is_negative, is_zero, is_minus_one, af_inet, sock_stream,
}
use ironhide.Client.{bytes_of, attempts, addresses_of}

-- class ClientTCP
pub record ClientTcp : Type 0 where
  pub serv_addr : SockaddrIn
  pub sock : ℤ

-- access_to_socket and access_to_sockaddr_in
abbrev pub access_to_socket : ClientTcp → ℤ
access_to_socket client = client.sock

abbrev pub access_to_sockaddr_in : ClientTcp → SockaddrIn
access_to_sockaddr_in client = client.serv_addr

module _ (kernel : Kernel) (buffer_size : ℕ) where
  -- A connected stream is not used at once.
  abbrev pub use_stream : ℤ → Addrinfo → Exec Calls Bool
  use_stream sfd rp = pure true

  -- connect_to_server, from a new client. The address that inet_pton stores is `peer.sin_addr` of
  -- its answer.
  unfoldable pub connect_to_server : Text → ℕ → Exec Calls ClientTcp
  unfolding call addresses_of attempts
  connect_to_server dst port = do
    first ← call kernel (socket af_inet sock_stream 0)
    if is_negative first.result then raise exit_failure else pure tt
    address ← call kernel (inet_pton dst)
    if (is_negative address.result || is_zero address.result) then raise exit_failure else pure tt
    found ← addresses_of kernel dst port sock_stream
    r ← attempts kernel use_stream (negsuc 0) found
    if r.1
        then pure (record {
          serv_addr = record {
            sin_family = af_inet;
            sin_port = htons port;
            sin_addr = address.peer.sin_addr;
          };
          sock = r.0;
        })
        else raise exit_failure

  -- send_and_receive: what is received goes to a new buffer that nobody else sees, and the test
  -- `received_len < -1` is never true of what `read` gives.
  unfoldable pub send_and_receive : ClientTcp → List ℕ → ℕ → Exec Calls (Unit {0})
  unfolding call call_
  send_and_receive client message message_len = do
    bytes ← lift (bytes_of message message_len)
    call_ kernel (send client.sock bytes)
    received ← call kernel (receive client.sock buffer_size)
    if (is_negative received.result && not (is_minus_one received.result))
        then raise exit_failure
        else pure tt

  -- close_connection
  unfoldable pub close_connection : ClientTcp → Exec Calls (Unit {0})
  unfolding call_
  close_connection client = call_ kernel (close client.sock)
