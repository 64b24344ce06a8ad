-- ===== src/Examples/Startup.antt =====
-- The start of the two programs, the screen and the frames at concrete values.
use lightvideo.Prelude.{
  ℕ, ◌*◌, ◌≡◌, ◌≤◌, refl, List, [], ◌∷◌, ◌++◌, length, replicate, length-replicate, some, none,
  true, ok, err, leb, le→leb, if◌then◌else◌, arith, x_server,
}
use lightvideo.Prelude.Runs.{Ran}
use lightvideo.Net.Address.{Addresses, AddressLaws}
use lightvideo.Server.Capture.{Display, Screen, LvLinuxCapturer, lsb_first, capture, capturer}
use lightvideo.Server.Capture.Frames.{DisplayLaws, Captured, capture-Captured}
use lightvideo.Server.Main.{main, Arguments, Wiring, server}
use lightvideo.Client.Network.Setup.{listen, Sockets, Listening}
use lightvideo.System.Ports.{Meet, main-listen}
use lightvideo.Server.Packager.{LvPackager}
use lightvideo.Server.StreamingServer.{LvStreamingServer}
use lightvideo.Server.StreamingServer.Frames.{
  Frames, FrameTurn, captured, receives, turns, turns_lem,
}
use lightvideo.Server.StreamingServer.Setup.{
  new, Meets, start_send_loop, Runs, start_send_loop-Runs,
}
use lightvideo.Examples.Models.{rtp, host}
use lightvideo.Examples.ToyCode.{toy}
use lightvideo.Examples.Streaming.{video, means}

-- An address is a host and a port.
abbrev addresses : Addresses
addresses = record {
  Text = ℕ × ℕ;
  SocketAddr = ℕ × ℕ;
  port = λ a. a.1;
  set_port = λ a n. (a.0, n);
  parse = λ t. some t;
  parse_v4 = λ t. some t;
  to_string = λ a. a;
}

address_laws : AddressLaws addresses
address_laws = record {
  port-set_port = λ a n small. refl;
  set_port-set_port = λ a m n. refl;
  parse-parse_v4 = λ t a e. e;
}

abbrev sockets : Sockets addresses
sockets = record {
  bind_udp = λ t. true;
  set_recv_buffer_size = λ n. true;
  bind_tcp = λ t. true;
  bind_udp_addr = λ a. true;
}

abbrev arguments : Arguments addresses
arguments = record { mode = some server; addr = some (1, 6000); target_addr = some (2, 65534) }

-- The ports behind 65535 wrap around.
abbrev wired : Wiring addresses
wired = record {
  feedback_addr = (2, 0);
  input_addr = (1, 6003);
  input_target_addr = (2, 1);
  bind_addr = (1, 6000);
  target_addr = (2, 65534);
  streaming = new 60 1920 1080 900000;
}

abbrev listening : Listening addresses
listening = record { addr = (2, 65534); feedback_addr = (2, 0); input_bind_addr = (2, 1) }

main-listen_example : Meet addresses address_laws (2, 65534) wired listening
unfolding main listen
main-listen_example =
    main-listen addresses address_laws true arguments sockets (2, 65534) wired listening refl refl
      refl

abbrev display : Display
display = record {
  connect_with_extensions = some 0;
  shmget = λ size. 7;
  shmat = λ id. 4096;
  generate_id = 5;
  attach = λ seg id. true;
  root = λ n. some 99;
  bitmap_format_bit_order = lsb_first;
  z_pixmap = 2;
  wait_for_reply = λ n g. true;
  segment = λ n address len. replicate len n;
  ImageBuffer = List ℕ;
  from_vec = λ w h bytes. if leb (w * h * 3) (length bytes) then some bytes else none;
}

display_laws : DisplayLaws display
display_laws = record {
  length-segment = λ n address len. length-replicate len n;
  from_vec-fits = λ w h bytes long. (bytes, rw (le→leb (w * h * 3) (length bytes) long) refl);
}

abbrev screen : Screen
screen = record { width = 4; height = 2; x = 0; y = 0 }

capture-Captured_example :
    Captured display screen 3
      (capturer display 99 4096 screen)
      (capture display 3 (capturer display 99 4096 screen))
unfolding lightvideo.Server.Capture.new
capture-Captured_example =
    capture-Captured display screen (capturer display 99 4096 screen) 3 display_laws refl

-- Three frames come before the first is received: the third is lost.
abbrev some_turns : List (FrameTurn ℕ)
some_turns =
    captured (ok 1)
    ∷ captured (ok 2)
    ∷ captured (ok 3)
    ∷ receives
    ∷ captured (err x_server)
    ∷ captured (ok 4)
    ∷ []

abbrev no_frames : Frames ℕ
no_frames = record { queue = []; received = []; running = true }

turns_lem_example :
    (length (turns ℕ some_turns no_frames).queue ≤ 2)
    × ((turns ℕ some_turns no_frames).received ++ (turns ℕ some_turns no_frames).queue
        ≡ 1 ∷ 2 ∷ 4 ∷ [])
turns_lem_example = turns_lem ℕ some_turns no_frames (omega arith)

abbrev rounds : List (Meets toy rtp host video means)
rounds =
    record {
      ioctl = λ fd. some fd;
      quit = none;
      frame = some (7 ∷ 8 ∷ 9 ∷ [], 40);
      bitrate = 80000;
    }
    ∷ record { ioctl = λ fd. none; quit = none; frame = none; bitrate = 80000 }
    ∷ []

start_send_loop-Runs_example :
    (r : Ran (LvStreamingServer (LvPackager (List ℕ) toy.Enc video)) (Unit {0})) × (start_send_loop
        toy rtp host video means
        (new 60 1920 1080 900000)
        (some 3)
        (some 900000)
        true
        rounds
      ≡ some r)
    × Runs toy rtp host video means 3 900000 rounds r
start_send_loop-Runs_example =
    start_send_loop-Runs toy rtp host video means 60 1920 1080 900000 3 900000 rounds
