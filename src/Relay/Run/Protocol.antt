-- ===== src/Relay/Run/Protocol.antt =====
-- What a client may do, and when: dial, report a connection that was made, report that it was
-- lost, wait; in this order.
use lockping_agent.Prelude.{
  ℕ, ◌*◌, Bool, true, false, List, [], ◌∷◌, Option, none, some, Result, ok, err, leb, ◌&&◌,
  if◌then◌else◌,
}
use lockping_agent.Secure.Crypto.{Crypto}
use lockping_agent.Relay.Backoff.{second}
use lockping_agent.Relay.Conn.{Conn}
use lockping_agent.Relay.Handshake.{Client, handshake}
use lockping_agent.Relay.Run.{Event, dialed, told, waited}

-- Free to dial; with a connection whose handshake succeeded and that is not reported yet; with one
-- that is reported; without one, before the wait.
pub data Phase : Type 0 where
  ready made up down : Phase

abbrev pub is_wait : ℕ → Bool
is_wait d = leb second d && leb d (30 * second)

module _ (c : Crypto) (cl : Client) where
  -- Whether a dial makes a connection: it succeeds, and so does the handshake.
  unfoldable pub makes : Result Conn → Bool
  makes (err e) = false
  makes (ok conn) = elim (handshake c cl conn).1 [ none ↦ true | some _ ↦ false ]

  -- `none`: the event is out of turn.
  unfoldable pub advance : Phase → Event → Option Phase
  unfolding makes
  advance ready (dialed conn) = if makes conn then some made else some down
  advance ready (told _) = none
  advance ready (waited _) = none
  advance made (told true) = some up
  advance made (told false) = none
  advance made (dialed _) = none
  advance made (waited _) = none
  advance up (told false) = some down
  advance up (told true) = none
  advance up (dialed _) = none
  advance up (waited _) = none
  advance down (waited d) = if is_wait d then some ready else none
  advance down (told _) = none
  advance down (dialed _) = none

  unfoldable pub follow : Phase → List Event → Option Phase
  unfolding advance
  follow p [] = some p
  follow p (e ∷ es) = elim (advance p e) [ none ↦ none | some q ↦ follow q es ]
