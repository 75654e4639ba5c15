-- ===== src/Session/Steps.antt =====
-- The calls of the sending side as steps, and what holds after any of them.
use usmp_python.Prelude.{◌≤◌, ◌≡◌, ◌≢◌, refl, Bool, false, [], All}
use usmp_python.Types.{Bytes, PacketType}
use usmp_python.Crypto.{Primitives}
use usmp_python.Session.State.{Session}
use usmp_python.Session.Send.{max_seq, send, ping, send_pong, rekey, bye, install_keys}
use usmp_python.Session.Nonce.{NoReuse, SessionCounts}
use usmp_python.Session.Kept.{
  FreshKey, Kept, send-Kept, seal-Kept, rotate-Kept, rekey-Kept, bye-Kept, receives-Kept,
}

-- One call of the sending side, or what `recv` does between two of them: it answers a PING, it
-- installs the keys of a REKEY, or it changes nothing that sending reads.
pub data Step (p : Primitives) : Session → Session → Type 0 where
  sends : (bs : Bytes) (s : Session) → Step p s (send p bs s).1
  pings : (s : Session) → Step p s (ping p s).1
  pongs : (s : Session) → Step p s (send_pong p s).1
  rekeys : (salt : Bytes) (s : Session) → FreshKey p salt s → Step p s (rekey p salt s).1
  rotates :
      (tx rx : Bytes) (s : Session)
      → All (λ e. e.0 ≢ tx) s.seals
      → Step p s (install_keys tx rx s).1
  byes : (s : Session) → Step p s (bye p s).1
  receives :
      (s t : Session)
      → t.seals ≡ s.seals
      → t.info.tx_key ≡ s.info.tx_key
      → t.info.tx_seq ≡ s.info.tx_seq
      → t.closed ≡ s.closed
      → Step p s t

pub data Reach (p : Primitives) (s : Session) : Session → Type 0 where
  here : Reach p s s
  next : {t u : Session} → Reach p s t → Step p t u → Reach p s u

module _ (p : Primitives) where
  Step-Kept :
      {s t : Session} (spent : Bool) → Step p s t → Kept spent s → (spent' : Bool) × Kept spent' t
  unfolding ping send_pong
  Step-Kept spent (sends bs s) h = (spent, send-Kept p bs spent s h)
  Step-Kept spent (pings s) h = (spent, seal-Kept p PacketType.ping [] spent s refl h)
  Step-Kept spent (pongs s) h = (spent, seal-Kept p PacketType.pong [] spent s refl h)
  Step-Kept spent (rekeys salt s fresh) h = (spent, rekey-Kept p salt spent s fresh h)
  Step-Kept spent (rotates tx rx s fresh) h = (spent, rotate-Kept p tx rx spent s fresh h)
  Step-Kept spent (byes s) h = bye-Kept p spent s h
  Step-Kept spent (receives s t e k n c) h = (spent, receives-Kept p spent s t e k n c h)

  reach-Kept :
      {s t : Session} (spent : Bool) → Reach p s t → Kept spent s → (spent' : Bool) × Kept spent' t
  reach-Kept spent here h = (spent, h)
  reach-Kept spent (next r st) h = let (mid, k) = reach-Kept spent r h in Step-Kept mid st k

-- From an open session that has sealed nothing and whose next number fits 32 bits, over any calls
-- in any order and whatever the writes come to, no key and sequence number ever seal two packets,
-- as long as each new key was not used before.
pub reach-NoReuse :
    (p : Primitives) {s t : Session}
    → s.seals ≡ []
    → s.closed ≡ false
    → s.info.tx_seq ≤ max_seq
    → Reach p s t
    → NoReuse t.seals
reach-NoReuse p {s} none_yet open_ cap r = (reach-Kept p false r (start, open_)).1.0.no_reuse
  where
    start : SessionCounts false s
    start = rw none_yet (record { capped = cap; behind = tt; no_reuse = tt })
