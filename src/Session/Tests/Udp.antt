-- ===== src/Session/Tests/Udp.antt =====
-- Examples for sessions over UDP.
use usmp_python.Prelude.{
  ◌≤◌, none, ℕ, ◌<◌, ◌≡◌, refl, true, false, some, [], ◌∷◌, ◌++◌, arith, replicate, get_or,
  bytes_eq, ◌⊎◌,
}
use usmp_python.Errors.{Exn, Result, ok, err, crc_error}
use usmp_python.Types.{Bytes, PacketType, UsmpFrame}
use usmp_python.Crypto.{build_aad, encrypt, decrypt}
use usmp_python.Crypto.Model.{sum_primitives, sum-IsAead, sum-IsSized}
use usmp_python.Window.{is_replayed}
use usmp_python.Window.Seen.{seen, Shows, fresh-Shows}
use usmp_python.Session.State.{Session}
use usmp_python.Session.Send.{max_seq, nonce_of}
use usmp_python.Session.Recv.{Arrival, start_reassembly, open_frame, authenticate, recv_turn}
use usmp_python.Session.Deliver.{sent_since}
use usmp_python.Session.Accept.{recv_turn-Shows}
use usmp_python.Udp.Stream.{Stream, new_stream, set_session_keys}
use usmp_python.Udp.Network.{Fate}
use usmp_python.Session.Lossy.{Joins, Expects, ArrivesOnce, sent_once}
use usmp_python.Session.Piece.{Piece}
use usmp_python.Session.Authentic.{authenticate-encrypt}
use usmp_python.Session.Tests.{link, info, start, peer, arrival_of, start-IsReady, sent}

-- The receiver over UDP, which has accepted the numbers 0 to 3.
abbrev udp : Session
udp = record peer {
  link = record link { is_reliable = false };
  info = record info {
    tx_key = replicate 32 4;
    rx_key = replicate 32 3;
    rx_seq = 3;
    rx_window_bitmap = 15;
  };
}

abbrev frame : ℕ → UsmpFrame
frame n = record {
  magic = 0xabcd;
  version = 2;
  kind = PacketType.data_packet;
  seq = n;
  size = 0;
  crc = 0;
  payload = [];
}

abbrev arrived : Result UsmpFrame → Arrival
arrived r = record { frame = r; read_at = 1; counted_at = 2 }

-- The first packet of the message above, over UDP.
abbrev fresh_udp : Session
fresh_udp = record peer { link = record link { is_reliable = false } }

abbrev first_packet : Arrival
first_packet = arrival_of (get_or (sent_since start sent) 0 [])

recv_turn-Shows_example :
    (let got = (authenticate sum_primitives first_packet fresh_udp).0 in
      let j = (recv_turn sum_primitives first_packet (start_reassembly 0) fresh_udp).1.info in
      (((got ≡ ok none) ⊎ ((e : Exn) × (got ≡ err e))) × (j ≡ fresh_udp.info))
      ⊎ ((f : UsmpFrame) × (m : Bytes) × (got ≡ ok (some (f, m)))
          × (first_packet.frame ≡ ok f)
          × ((seen f.seq [] ≡ false)
              × (((max_seq ≤ f.seq) × (j ≡ fresh_udp.info))
                  ⊎ ((f.seq < max_seq)
                      × (Shows j (f.seq ∷ []) ⊎ ((f.kind ≡ PacketType.rekey) × Shows j [])))))))
recv_turn-Shows_example =
    recv_turn-Shows sum_primitives first_packet (start_reassembly 0) fresh_udp [] refl
      (fresh-Shows fresh_udp.info refl refl)

-- A packet with the number 4, as the primitives of the examples seal it.
abbrev genuine : UsmpFrame
genuine = record (frame 4) {
  size = 29;
  payload = (4 ∷ 0 ∷ 0 ∷ 0 ∷ replicate 8 2) ++ (7 ∷ replicate 16 27);
}

genuine_opens :
    authenticate sum_primitives (arrived (ok genuine)) udp
    ≡ (ok (some (genuine, 7 ∷ [])), record udp { last_recv = 1 })
unfolding authenticate is_replayed open_frame nonce_of decrypt build_aad bytes_eq
genuine_opens = refl

authenticate-encrypt_example :
    (nonce : Bytes) × (nonce_of udp.info.session_id 4 ≡ ok nonce)
    × (encrypt sum_primitives udp.info.rx_key nonce 4 5 2 0xabcd (7 ∷ []) udp.info.cipher_suite
        ≡ ok genuine.payload)
authenticate-encrypt_example =
    authenticate-encrypt sum_primitives sum-IsAead (arrived (ok genuine)) udp
      (record udp { last_recv = 1 }) genuine (7 ∷ []) refl refl genuine_opens

-- Two streams under the sessions, with the keys of the acknowledgements.
abbrev near : Stream
near = set_session_keys (replicate 32 3) (replicate 32 4) (new_stream false)

abbrev far : Stream
far = set_session_keys (replicate 32 4) (replicate 32 3) (new_stream true)

far-Joins : Joins 0 near far
unfolding set_session_keys new_stream
far-Joins = record {
  open_sender = refl;
  open_receiver = refl;
  nothing_read = refl;
  not_old = refl;
  paired = record { key = replicate 32 3; checks = λ late. refl; signs = λ late. refl };
}

fresh-Expects : Expects start fresh_udp []
fresh-Expects = record {
  udp = refl;
  same_key = refl;
  same_id = refl;
  same_suite = refl;
  window = fresh-Shows fresh_udp.info refl refl;
  unseen = refl;
  recent = omega arith;
}

-- The first attempt is lost, the acknowledgement of the second is, and the third is answered.
sent_once_example :
    ArrivesOnce sum_primitives
      (Fate.lost ∷ Fate.unanswered ∷ Fate.answered ∷ [])
      (7 ∷ [])
      start
      fresh_udp
      near
      far
      5
      (start_reassembly 9)
sent_once_example =
    sent_once sum_primitives sum-IsAead sum-IsSized
      (Fate.lost ∷ Fate.unanswered ∷ Fate.answered ∷ []) 1 (7 ∷ []) start fresh_udp [] near far 5
      (start_reassembly 9) (omega arith) refl start-IsReady (omega arith) (omega arith)
      (omega arith) fresh-Expects far-Joins

-- The fragment and the last packet of a message, as the primitives of the examples seal them.
abbrev part : UsmpFrame
part = record (frame 4) {
  kind = PacketType.data_frag;
  size = 29;
  payload = (4 ∷ 0 ∷ 0 ∷ 0 ∷ replicate 8 2) ++ (7 ∷ replicate 16 31);
}

abbrev whole : UsmpFrame
whole = record (frame 5) {
  size = 29;
  payload = (5 ∷ 0 ∷ 0 ∷ 0 ∷ replicate 8 2) ++ (8 ∷ replicate 16 30);
}

-- Noise and a copy come behind the fragment, and a copy of it behind the last packet.
abbrev part_piece : Piece
part_piece = record {
  frame = part;
  plaintext = 7 ∷ [];
  first = arrived (ok part);
  others = arrived (err crc_error) ∷ arrived (ok part) ∷ [];
}

abbrev whole_piece : Piece
whole_piece = record {
  frame = whole;
  plaintext = 8 ∷ [];
  first = arrived (ok whole);
  others = arrived (ok part) ∷ [];
}
