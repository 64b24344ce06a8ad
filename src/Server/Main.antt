-- ===== src/Server/Main.antt =====
-- server/src/main.rs: what the command line makes the server do.
use lightvideo.Prelude.{
  Option, none, some, Bool, Outcome, ok, err, ◌>>=◌, ◌>>◌, if◌then◌else◌, unwrap, bad_address,
  x_server,
}
use lightvideo.Net.Address.{Addresses, shift_port}
use lightvideo.Server.StreamingServer.Setup.{Settings, new}

-- `std::env::args().nth(1)`, as far as it is told apart.
pub data Mode : Type 0 where
  bench server other : Mode

module _ (addresses : Addresses) where
  open addresses use {Text, SocketAddr, parse, to_string}

  pub record Arguments : Type 0 where
    pub mode : Option Mode
    pub addr : Option Text
    pub target_addr : Option Text

  -- What the parts of the server are made with: the address that the feedback server connects to,
  -- those that the input server binds and pings, and those that the streaming server binds and sends
  -- to.
  pub record Wiring : Type 0 where
    pub feedback_addr : Text
    pub input_addr : Text
    pub input_target_addr : SocketAddr
    pub bind_addr : Text
    pub target_addr : Text
    pub streaming : Settings

  pub data Run : Type 0 where
    benchmarks prints_usage : Run
    serves : Wiring → Run

  -- `text.parse()?`
  abbrev pub parse_addr : Text → Outcome SocketAddr
  parse_addr text = elim (parse text) [ none ↦ err bad_address | some a ↦ ok a ]

  -- The addresses, and the emulator, which needs an X server.
  unfoldable pub wire : Bool → Text → Text → Outcome Wiring
  wire has_x_server addr target_addr = do
    feedback_addr ← parse_addr target_addr
    input_addr ← parse_addr addr
    input_target_addr ← parse_addr target_addr
    (if has_x_server then ok tt else err x_server)
    ok (record {
      feedback_addr = to_string (shift_port addresses 2 feedback_addr);
      input_addr = to_string (shift_port addresses 3 input_addr);
      input_target_addr = shift_port addresses 3 input_target_addr;
      bind_addr = addr;
      target_addr = target_addr;
      streaming = new 60 1920 1080 900000;
    })

  abbrev pub run_server : Bool → Option Text → Option Text → Outcome Run
  run_server has_x_server none target_addr = ok prints_usage
  run_server has_x_server (some addr) target_addr = do
    target_addr ← unwrap target_addr
    w ← wire has_x_server addr target_addr
    ok (serves w)

  unfoldable pub main : Bool → Arguments → Outcome Run
  unfolding wire
  main has_x_server args = elim args.mode [
    | none ↦ ok prints_usage
    | some bench ↦ ok benchmarks
    | some server ↦ run_server has_x_server args.addr args.target_addr
    | some other ↦ ok prints_usage
  ]
