-- ===== src/Client/Udp.antt =====
-- src/client/clientudp.cpp
pub mod Sockets
pub mod Delivery
use ironhide.Base.{ℕ, Bool, List, [], ◌∷◌, if◌then◌else◌}
use ironhide.Base.Int.{ℤ, negsuc}
use ironhide.Base.Exec.{Exec, pure, lift, ◌>>=◌, ◌>>◌}
use ironhide.Base.Text.{Text}
use ironhide.Socket.{Kernel, Calls, Addrinfo, sendto, call, is_positive, resolved, sock_dgram}
use ironhide.Client.{bytes_of, close_positive, open_one, attempts, addresses_of}

module _ (kernel : Kernel) where
  -- sendto on one address: whether something was sent.
  unfoldable pub send_to : List ℕ → ℤ → Addrinfo → Exec Calls Bool
  unfolding call
  send_to message sfd rp = do
    res ← call kernel (sendto sfd message (resolved rp.ai_addr))
    pure (is_positive res.result)

  -- send_and_wait_response
  unfoldable pub send_and_wait_response : List ℕ → ℕ → Text → ℕ → Exec Calls (Unit {0})
  unfolding addresses_of attempts close_positive send_to
  send_and_wait_response message message_len dst port = do
    found ← addresses_of kernel dst port sock_dgram
    bytes ← lift (bytes_of message message_len)
    r ← attempts kernel (send_to bytes) (negsuc 0) found
    close_positive kernel r.0

  -- The loop of send_only, which closes nothing.
  unfoldable pub attempts_only : List ℕ → ℤ → List Addrinfo → Exec Calls ℤ
  unfolding open_one send_to
  attempts_only message sfd [] = pure sfd
  attempts_only message sfd (rp ∷ rest) = do
    r ← open_one kernel (send_to message) rp
    if r.1 then pure r.0 else attempts_only message r.0 rest

  -- send_only
  unfoldable pub send_only : List ℕ → ℕ → Text → ℕ → Exec Calls ℤ
  unfolding addresses_of attempts_only
  send_only message message_len dst port = do
    found ← addresses_of kernel dst port sock_dgram
    bytes ← lift (bytes_of message message_len)
    attempts_only bytes (negsuc 0) found
