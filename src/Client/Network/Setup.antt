-- ===== src/Client/Network/Setup.antt =====
-- What `LVNetwork::socket_loop` of client/src/decoder/network.rs sets up in front of its loop, with
-- the two threads that it starts.
use lightvideo.Prelude.{
  ℕ, none, some, Bool, Outcome, ok, err, ◌>>=◌, ◌>>◌, if◌then◌else◌, bad_address, socket_io,
}
use lightvideo.Net.Address.{Addresses, shift_port}

abbrev pub recv_buffer_size : ℕ
recv_buffer_size = 393216

module _ (addresses : Addresses) where
  open addresses use {Text, SocketAddr, parse_v4, to_string}

  -- The calls of the operating system; `false` is an `Err`.
  pub record Sockets : Type 0 where
    pub bind_udp : Text → Bool
    pub set_recv_buffer_size : ℕ → Bool
    pub bind_tcp : Text → Bool
    pub bind_udp_addr : SocketAddr → Bool

  -- The addresses at which the client listens for video, for the feedback connection and for the
  -- pings of the input server.
  pub record Listening : Type 0 where
    pub addr : Text
    pub feedback_addr : Text
    pub input_bind_addr : SocketAddr

  module _ (sockets : Sockets) where
    open sockets use {bind_udp, set_recv_buffer_size, bind_tcp, bind_udp_addr}

    abbrev pub or_io : Bool → Outcome (Unit {0})
    or_io b = if b then ok tt else err socket_io

    -- `feedback::start`, up to its thread.
    abbrev pub start_feedback : Text → Outcome (Unit {0})
    start_feedback feedback_addr = or_io (bind_tcp feedback_addr)

    -- `input::start`, up to its thread.
    abbrev pub start_input : SocketAddr → Outcome (Unit {0})
    start_input bind_addr = or_io (bind_udp_addr bind_addr)

    abbrev pub parse_addr : Text → Outcome SocketAddr
    parse_addr text = elim (parse_v4 text) [ none ↦ err bad_address | some a ↦ ok a ]

    unfoldable pub listen : Text → Outcome Listening
    listen addr = do
      or_io (bind_udp addr)
      or_io (set_recv_buffer_size recv_buffer_size)
      a ← parse_addr addr
      let feedback_addr = shift_port addresses 2 a
      start_feedback (to_string feedback_addr)
      let input_bind_addr = shift_port addresses 1 feedback_addr
      start_input input_bind_addr
      ok (record {
        addr = addr;
        feedback_addr = to_string feedback_addr;
        input_bind_addr = input_bind_addr;
      })
