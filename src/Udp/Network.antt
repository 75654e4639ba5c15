-- ===== src/Udp/Network.antt =====
-- A sender and a receiver over a network that loses datagrams, copies and acknowledgements alike.
use usmp_python.Prelude.{
  ℕ, zero, suc, ◌+◌, ◌≤◌, ◌<◌, ◌≡◌, Bool, true, false, some, List, [], ◌∷◌, ◌++◌, arith, length,
  ◌∙◌, if◌then◌else◌, drop, le→ltb, replicate,
}
use usmp_python.Errors.{Result, ok, err, os_error}
use usmp_python.Types.{Bytes}
use usmp_python.Crypto.{Primitives}
use usmp_python.Udp.Stream.{
  Stream, max_read_buffer, sendto, build_utack, feed_utack, accept_datagram, feed_frame,
  feed_packet, feed_packets, holds_frame, is_utack, is_handshake_type, is_too_old, byte_at, word_at,
}
use usmp_python.Udp.Send.{attempts}
use usmp_python.Udp.Queue.{concat}
use usmp_python.Udp.Reply.{Paired}
use usmp_python.Udp.Lost.{fed}

-- What becomes of one attempt: the copy is lost; it arrives and its acknowledgement is lost; or both
-- arrive while the attempt waits.
pub data Fate : Type 0 where
  lost unanswered answered : Fate

-- Whether an attempt is answered, how many copies the receiver gets, and how many the sender sends
-- of at most n: the first answer ends it.
abbrev pub is_answered : List Fate → Bool
is_answered [] = false
is_answered (Fate.lost ∷ fates) = is_answered fates
is_answered (Fate.unanswered ∷ fates) = is_answered fates
is_answered (Fate.answered ∷ fates) = true

abbrev pub received : List Fate → ℕ
received [] = 0
received (Fate.lost ∷ fates) = received fates
received (Fate.unanswered ∷ fates) = suc (received fates)
received (Fate.answered ∷ fates) = 1

abbrev pub tries : ℕ → List Fate → ℕ
tries n [] = n
tries zero (f ∷ fates) = 0
tries (suc n) (Fate.lost ∷ fates) = suc (tries n fates)
tries (suc n) (Fate.unanswered ∷ fates) = suc (tries n fates)
tries (suc n) (Fate.answered ∷ fates) = 1

-- How the attempts end.
abbrev pub outcome : Bool → Result (Unit {0})
outcome b = if b then ok tt else err os_error

-- The receiver has room for the copies that reach it.
abbrev pub HasRoom : Bytes → List Fate → Stream → Type 0
HasRoom d fates r =
    length r.read_buffer + length (concat (replicate (received fates) d)) ≤ max_read_buffer

module _ (p : Primitives) (d : Bytes) where
  -- What arrives at the sender in each attempt, and the receiver in the end. After an answer the
  -- sender sends no more.
  unfoldable pub meet : List Fate → Stream → List (List Bytes) × Stream
  meet [] r = ([], r)
  meet (Fate.lost ∷ fates) r = let (waits, r') = meet fates r in ([] ∷ waits, r')
  meet (Fate.unanswered ∷ fates) r =
      let (waits, r') = meet fates (feed_packet p d r) in ([] ∷ waits, r')
  meet (Fate.answered ∷ fates) r =
      (drop (length r.sent) (feed_packet p d r).sent ∷ [], feed_packet p d r)

  -- The receiver takes the datagram for a new frame of the session, and signs what the sender checks.
  pub record Hears (s r : Stream) : Type 0 where
    pub opened : r.closed ≡ false
    pub recent : is_too_old (word_at d 4) r.last_rx_seq ≡ false
    pub paired : Paired (byte_at d 3) s r

  -- The datagram is a frame of the session phase.
  pub record IsSessionFrame : Type 0 where
    pub plain : is_utack d ≡ false
    pub frame : holds_frame d ≡ true
    pub session : is_handshake_type (byte_at d 3) ≡ false
    pub narrow : word_at d 4 < 4294967296

  abbrev pub heard : Stream → Stream
  heard r = record (sendto (build_utack p (byte_at d 3) (word_at d 4) r) r) {
    read_buffer = r.read_buffer ++ d;
  }

  pub hear :
      (r : Stream)
      → IsSessionFrame
      → r.closed ≡ false
      → is_too_old (word_at d 4) r.last_rx_seq ≡ false
      → length r.read_buffer + length d ≤ max_read_buffer
      → feed_packet p d r ≡ heard r
  unfolding feed_frame accept_datagram
  hear r f opened recent room =
      fed p d r opened f.plain f.frame
      ∙ simp (f.session, recent, le→ltb (length r.read_buffer + length d) max_read_buffer room)

  pub Hears-heard : (s r : Stream) → Hears s r → Hears s (heard r)
  Hears-heard s r h = record {
    opened = h.opened;
    recent = h.recent;
    paired = record { key = h.paired.key; checks = h.paired.checks; signs = h.paired.signs };
  }

  -- The sender waits for the acknowledgement of the datagram.
  pub record Sends (s : Stream) : Type 0 where
    pub open_sender : s.closed ≡ false
    pub of_type : s.pending_send_type ≡ some (byte_at d 3)
    pub of_seq : s.pending_send_seq ≡ some (word_at d 4)
    pub unacked : s.acked ≡ false

  pub Sends-sendto : (s : Stream) → Sends s → Sends (sendto d s)
  Sends-sendto s h = record {
    open_sender = h.open_sender;
    of_type = h.of_type;
    of_seq = h.of_seq;
    unacked = h.unacked;
  }

  pub Hears-sendto : (s r : Stream) → Hears s r → Hears (sendto d s) r
  Hears-sendto s r h = record {
    opened = h.opened;
    recent = h.recent;
    paired = record { key = h.paired.key; checks = h.paired.checks; signs = h.paired.signs };
  }

  -- An attempt in which nothing arrives.
  pub silent_attempt :
      (n : ℕ) (waits : List (List Bytes)) (s : Stream)
      → s.acked ≡ false
      → attempts p (suc n) d ([] ∷ waits) s ≡ attempts p n d waits (sendto d s)
  unfolding attempts feed_packets
  silent_attempt n waits s h = simp h

  pub feed_utack-sent : (bs : Bytes) (s : Stream) → (feed_utack p bs s).sent ≡ s.sent
  unfolding feed_utack
  feed_utack-sent bs s = ground arith
