-- ===== src/Socket/Held.antt =====
-- What a process has done by its calls. The sockets that it holds are those that `socket` or
-- `accept` gave and `close` did not take.
use ironhide.Base.{ℕ, Bool, true, false, List, [], ◌∷◌, if◌then◌else◌, ◌==◌, ◌≡◌, arith}
use ironhide.Base.Int.{ℤ, pos, negsuc}
use ironhide.Socket.{
  Peer, send, sendto, connect, is_positive, is_minus_one, Call, socket, accept, close, Answer,
  Calls, is_negative,
}

abbrev pub int_eq : ℤ → ℤ → Bool
int_eq (pos m) (pos n) = m == n
int_eq (negsuc m) (negsuc n) = m == n
int_eq _ _ = false

unfoldable pub release : ℤ → List ℤ → List ℤ
release fd [] = []
release fd (x ∷ xs) = if int_eq x fd then xs else x ∷ release fd xs

-- What a call does to the sockets held.
unfoldable pub hold : Call × Answer → List ℤ → List ℤ
unfolding release
hold (socket _ _ _, a) fds = if is_negative a.result then fds else a.result ∷ fds
hold (accept _, a) fds = if is_negative a.result then fds else a.result ∷ fds
hold (close fd, a) fds = release fd fds
hold _ fds = fds

unfoldable pub held : Calls → List ℤ
unfolding hold
held [] = []
held (c ∷ cs) = hold c (held cs)

pub int_eq_refl : (x : ℤ) → int_eq x x ≡ true
int_eq_refl (pos n) = ground arith
int_eq_refl (negsuc n) = ground arith

-- The messages that `sendto` sent, and the sockets that `connect` connected, the latest first.
unfoldable pub delivered : Calls → List (List ℕ × Peer)
delivered [] = []
delivered ((sendto fd message peer, a) ∷ s) =
    let rest = delivered s in if is_positive a.result then (message, peer) ∷ rest else rest
delivered (_ ∷ s) = delivered s

-- The messages that `send` sent, each with its socket.
unfoldable pub said : Calls → List (ℤ × List ℕ)
said [] = []
said ((send fd message, a) ∷ s) =
    let rest = said s in if is_positive a.result then (fd, message) ∷ rest else rest
said (_ ∷ s) = said s

-- The sockets that were asked for, by their families, types and protocols, the latest first.
unfoldable pub asked : Calls → List (ℕ × ℕ × ℕ)
asked [] = []
asked ((socket family type protocol, a) ∷ s) = (family, type, protocol) ∷ asked s
asked (_ ∷ s) = asked s

unfoldable pub connections : Calls → List (ℤ × Peer)
connections [] = []
connections ((connect fd peer, a) ∷ s) =
    let rest = connections s in if is_minus_one a.result then rest else (fd, peer) ∷ rest
connections (_ ∷ s) = connections s
