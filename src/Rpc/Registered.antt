-- ===== src/Rpc/Registered.antt =====
-- server.go: the table of procedures. A Go map that is only read in full has no order; here the last
-- one registered is the first.
use go_nfs.Base.{◌==◌, if◌then◌else◌, ℕ, ◌≡◌, refl, true, ◌&&◌, none, some, ◌∷◌, arith}
use go_nfs.Rpc.{HandleFunc, Handlers, handler_for, register_message_handler}

-- Registering a procedure that has no handler yet gives it that handler and leaves all others as they
-- are, and registering it once more is refused and changes nothing.
pub handler_for-register_message_handler :
    {S : Type 0} (protocol proc : ℕ) (h h' : HandleFunc S) (hs : Handlers S)
    → handler_for hs protocol proc ≡ none
    → (hs' : Handlers S) × (register_message_handler protocol proc h hs ≡ some hs')
      × ((p q : ℕ)
          → handler_for hs' p q
            ≡ (if (protocol == p) && (proc == q) then some h else handler_for hs p q))
      × (register_message_handler protocol proc h' hs' ≡ none)
unfolding register_message_handler handler_for
handler_for-register_message_handler protocol proc h h' hs absent = (
  (protocol, proc, h) ∷ hs,
  rw (register_message_handler, absent) refl,
  λ p q. refl,
  rw (register_message_handler, same protocol proc) refl,
)
  where
    same : (m n : ℕ) → ((m == m) && (n == n)) ≡ true
    same m n = ground arith
