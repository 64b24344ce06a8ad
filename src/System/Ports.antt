-- ===== src/System/Ports.antt =====
-- The addresses that server/src/main.rs and client/src/decoder/network.rs calculate, each from its
-- own command line.
use lightvideo.Prelude.{
  ◌≡◌, refl, ap, sym, ◌∙◌, Option, none, some, Bool, true, false, Outcome, ok, err, panic, ◌>>=◌,
  ◌>>◌, if◌then◌else◌, arith, bad_address, x_server, socket_io, ◌<◌, ◌^◌,
}
use lightvideo.Prelude.Words.{add16}
use lightvideo.Net.Address.{Addresses, AddressLaws, shift_port}
use lightvideo.Server.Main.{
  Arguments, Wiring, Run, benchmarks, prints_usage, serves, bench, server, other, Mode, wire,
  run_server, main,
}
use lightvideo.Server.StreamingServer.Setup.{new}
use lightvideo.Client.Network.Setup.{Sockets, Listening, listen, recv_buffer_size}

module _ (addresses : Addresses) (laws : AddressLaws addresses) where
  open addresses use {Text, SocketAddr, port, set_port, parse, parse_v4, to_string}

  shift_shift :
      (a : SocketAddr)
      → shift_port addresses 1 (shift_port addresses 2 a) ≡ shift_port addresses 3 a
  shift_shift a =
      let small : add16 (port a) 2 < 2 ^ 16 = omega arith in
      laws.set_port-set_port a (add16 (port a) 2) _
      ∙ ap (λ p. set_port a (add16 p 1)) (laws.port-set_port a (add16 (port a) 2) small)
      ∙ ap (set_port a) (omega arith)

  -- The client listens at this text and beside it.
  ListensAt : Text → Outcome (Listening addresses) → Type 0
  ListensAt text (ok l) =
      (a : SocketAddr) × (parse_v4 text ≡ some a)
      × (l.addr ≡ text)
      × (l.feedback_addr ≡ to_string (shift_port addresses 2 a))
      × (l.input_bind_addr ≡ shift_port addresses 3 a)
  ListensAt text (err e) = Unit {0}
  ListensAt text panic = Unit {0}

  listen-ListensAt :
      (sockets : Sockets addresses) (text : Text) → ListensAt text (listen addresses sockets text)
  unfolding ListensAt listen
  listen-ListensAt sockets text =
      bound (sockets.bind_udp text) (sockets.set_recv_buffer_size recv_buffer_size) (parse_v4 text)
        refl
    where
      started :
          (a : SocketAddr)
          → parse_v4 text ≡ some a
          → (b c : Bool)
          → ListensAt text (do
            (if b then ok tt else err socket_io)
            (if c then ok tt else err socket_io)
            ok (record {
              addr = text;
              feedback_addr = to_string (shift_port addresses 2 a);
              input_bind_addr = shift_port addresses 1 (shift_port addresses 2 a);
            }))
      started a e true true = (a, e, refl, refl, shift_shift a)
      started a e true false = tt
      started a e false c = tt

      bound :
          (b c : Bool) (o : Option SocketAddr)
          → parse_v4 text ≡ o
          → ListensAt text (do
            (if b then ok tt else err socket_io)
            (if c then ok tt else err socket_io)
            a ← elim o [ none ↦ err bad_address | some a ↦ ok a ]
            (if sockets.bind_tcp (to_string (shift_port addresses 2 a))
                then ok tt
                else err socket_io)
            (if sockets.bind_udp_addr (shift_port addresses 1 (shift_port addresses 2 a))
                then ok tt
                else err socket_io)
            ok (record {
              addr = text;
              feedback_addr = to_string (shift_port addresses 2 a);
              input_bind_addr = shift_port addresses 1 (shift_port addresses 2 a);
            }))
      bound false c o e = tt
      bound true false o e = tt
      bound true true none e = tt
      bound true true (some a) e =
          started a e (sockets.bind_tcp (to_string (shift_port addresses 2 a)))
            (sockets.bind_udp_addr (shift_port addresses 1 (shift_port addresses 2 a)))

  -- The server connects, pings and sends to where a client at this address listens.
  abbrev pub Meet : Text → Wiring addresses → Listening addresses → Type 0
  Meet text w l =
      (w.target_addr ≡ l.addr)
      × (w.feedback_addr ≡ l.feedback_addr)
      × (w.input_target_addr ≡ l.input_bind_addr)

  -- The server sends to this address and beside it, if it serves.
  SendsTo : Text → SocketAddr → Outcome (Run addresses) → Type 0
  SendsTo text a (ok (serves w)) =
      (w.target_addr ≡ text)
      × (w.feedback_addr ≡ to_string (shift_port addresses 2 a))
      × (w.input_target_addr ≡ shift_port addresses 3 a)
  SendsTo text a (ok benchmarks) = Unit {0}
  SendsTo text a (ok prints_usage) = Unit {0}
  SendsTo text a (err e) = Unit {0}
  SendsTo text a panic = Unit {0}

  abbrev wiring : Text → Text → SocketAddr → SocketAddr → SocketAddr → Wiring addresses
  wiring addr text a g i = record {
    feedback_addr = to_string (shift_port addresses 2 a);
    input_addr = to_string (shift_port addresses 3 i);
    input_target_addr = shift_port addresses 3 g;
    bind_addr = addr;
    target_addr = text;
    streaming = new 60 1920 1080 900000;
  }

  run_server-SendsTo :
      (has_x_server : Bool) (addr : Option Text) (text : Text) (a : SocketAddr)
      → parse text ≡ some a
      → SendsTo text a (run_server addresses has_x_server addr (some text))
  unfolding SendsTo wire
  run_server-SendsTo has_x_server none text a e = tt
  run_server-SendsTo has_x_server (some addr) text a e =
      wired (parse text) (parse addr) has_x_server e
    where
      same : {t : SocketAddr} → some t ≡ some a → t ≡ a
      same h = cc

      wired :
          (target own : Option SocketAddr) (x : Bool)
          → target ≡ some a
          → SendsTo text a (
              (do
                f ← elim target [ none ↦ err bad_address | some i ↦ ok i ]
                i ← elim own [ none ↦ err bad_address | some i ↦ ok i ]
                g ← elim target [ none ↦ err bad_address | some i ↦ ok i ]
                (if x then ok tt else err x_server)
                ok (wiring addr text f g i))
              >>= λ w. ok (serves w))
      wired none own x h = cc
      wired (some t) none x h = tt
      wired (some t) (some i) false h = tt
      wired (some t) (some i) true h = rw (same h) (refl, refl, refl)

  main-SendsTo :
      (has_x_server : Bool) (args : Arguments addresses) (text : Text) (a : SocketAddr)
      → args.target_addr ≡ some text
      → parse text ≡ some a
      → SendsTo text a (main addresses has_x_server args)
  unfolding main SendsTo
  main-SendsTo has_x_server args text a target parsed = chosen args.mode args.target_addr target
    where
      same : {t : Text} → some t ≡ some text → t ≡ text
      same h = cc

      chosen :
          (mode : Option Mode) (t : Option Text)
          → t ≡ some text
          → SendsTo text a (elim mode [
            | none ↦ ok prints_usage
            | some bench ↦ ok benchmarks
            | some server ↦ run_server addresses has_x_server args.addr t
            | some other ↦ ok prints_usage
          ])
      chosen none t h = tt
      chosen (some bench) t h = tt
      chosen (some other) t h = tt
      chosen (some server) none h = cc
      chosen (some server) (some t) h =
          rw (same h) (run_server-SendsTo has_x_server args.addr text a parsed)

  -- A server that serves and a client that listens, started with the same target address: the server
  -- sends the video to the address that the client has bound, connects the feedback to the one at
  -- which the client listens for it, and pings the one at which the client waits for the ping; also
  -- where the ports wrap around.
  pub main-listen :
      (has_x_server : Bool) (args : Arguments addresses) (sockets : Sockets addresses) (text : Text)
      (w : Wiring addresses) (l : Listening addresses)
      → args.target_addr ≡ some text
      → main addresses has_x_server args ≡ ok (serves w)
      → listen addresses sockets text ≡ ok l
      → Meet text w l
  unfolding main SendsTo ListensAt
  main-listen has_x_server args sockets text w l target served listening =
      let (a, parsed, at, feedback, input) = rw listening at (listen-ListensAt sockets text) in
      let (video, connects, pings) =
        rw served at
          (main-SendsTo has_x_server args text a target (laws.parse-parse_v4 text a parsed)) in
      (video ∙ sym at, connects ∙ sym feedback, pings ∙ sym input)
