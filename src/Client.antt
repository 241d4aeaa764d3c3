-- ===== src/Client.antt =====
-- src/client: what ClientUDP and ClientTCP share.
pub mod Udp
pub mod Tcp
pub mod Loop
use ironhide.Base.{ℕ, Bool, false, List, [], ◌∷◌, length, take, ltb, if◌then◌else◌}
use ironhide.Base.Result.{Result, ok, err, fault, exit_failure}
use ironhide.Base.Int.{ℤ}
use ironhide.Base.Exec.{Exec, pure, raise, ◌>>=◌, ◌>>◌}
use ironhide.Base.Text.{Text, to_string}
use ironhide.Socket.{
  Kernel, Calls, Addrinfo, socket, connect, close, getaddrinfo, call, call_, is_positive, is_zero,
  is_minus_one, resolved,
}

-- The first bytes of an object that a call reads.
abbrev pub bytes_of : List ℕ → ℕ → Result (List ℕ)
bytes_of object n = if ltb (length object) n then err fault else ok (take n object)

module _ (kernel : Kernel) where
  -- `if (sfd > 0) close(sfd)`
  unfoldable pub close_positive : ℤ → Exec Calls (Unit {0})
  unfolding call_
  close_positive sfd = if is_positive sfd then call_ kernel (close sfd) else pure tt

  -- `sfd > 0 && connect(sfd, rp->ai_addr, rp->ai_addrlen) != -1`, and what follows if it holds.
  unfoldable pub connected : ℤ → Addrinfo → Exec Calls Bool → Exec Calls Bool
  unfolding call
  connected sfd rp rest =
      if is_positive sfd
      then (call kernel (connect sfd (resolved rp.ai_addr)) >>= λ c.
          if is_minus_one c.result then pure false else rest)
      else pure false

  -- A new socket, connected to an address and put to use: the socket, and whether send_flag is
  -- cleared.
  unfoldable pub open_one : (ℤ → Addrinfo → Exec Calls Bool) → Addrinfo → Exec Calls (ℤ × Bool)
  unfolding call connected
  open_one usage rp = do
    s ← call kernel (socket rp.ai_family rp.ai_socktype rp.ai_protocol)
    done ← connected s.result rp (usage s.result rp)
    pure (s.result, done)

  -- The loop over the addresses, which closes a socket before it makes the next.
  unfoldable pub attempts :
      (ℤ → Addrinfo → Exec Calls Bool) → ℤ → List Addrinfo → Exec Calls (ℤ × Bool)
  unfolding close_positive open_one
  attempts usage sfd [] = pure (sfd, false)
  attempts usage sfd (rp ∷ rest) = do
    close_positive sfd
    r ← open_one usage rp
    if r.1 then pure r else attempts usage r.0 rest

  -- The addresses of a destination.
  unfoldable pub addresses_of : Text → ℕ → ℕ → Exec Calls (List Addrinfo)
  unfolding call
  addresses_of dst port socktype = do
    found ← call kernel (getaddrinfo dst (to_string port) socktype)
    if is_zero found.result then pure found.addresses else raise exit_failure
