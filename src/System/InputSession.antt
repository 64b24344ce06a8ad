-- ===== src/System/InputSession.antt =====
-- The input channel from its start: the pings of server/src/server/input_server.rs, the thread of
-- client/src/decoder/input.rs that waits for one of them, and the two loops.
use lightvideo.Prelude.{
  ℕ, ◌≡◌, refl, List, [], length, take, drop, length-append, length-take, length-drop, map, All,
  Option, none, some, true, ok, ◌>>=◌, arith, fill_front, replicate,
}
use lightvideo.Net.Input.{LvInputEvent, KeyTable, input_packet_size}
use lightvideo.Net.Pod.{Bytemuck, EventFits}
use lightvideo.Client.Input.{new_buffer, input_thread}
use lightvideo.Server.X11.{FakeInput, Xlib}
use lightvideo.Server.InputServer.{Receiver, ping, start_receive_loop, receive_loop}
use lightvideo.System.InputRelay.{emulate, view}
use lightvideo.System.InputNetwork.{pick, present, reads, receive_loop-network}

length-fill_front : (buf got : List ℕ) → length (fill_front buf got) ≡ length buf
length-fill_front buf got = ground (
  arith,
  length-append (take (length buf) got) (drop (length got) buf),
  length-take (length buf) got,
  length-drop (length got) buf,
)

-- The events that the client sends when it has read this.
abbrev pub sent_after : Option (List ℕ) → List LvInputEvent → List LvInputEvent
sent_after none evs = []
sent_after (some got) evs = evs

module _ (keys : KeyTable) (xlib : Xlib) (pods : Bytemuck) where
  from_ping :
      (got : Option (List ℕ)) (evs : List LvInputEvent) (is : List (Option ℕ)) (r : Receiver)
      → All EventFits evs
      → length r.buf ≡ input_packet_size
      → (ds : List (List ℕ)) × (input_thread pods got (map some evs) ≡ ok ds)
        × ((receive_loop keys xlib pods (map (pick ds) is) r >>= λ u. ok (view u))
            ≡ emulate keys xlib (present (map (pick (sent_after got evs)) is)) (view r))
  unfolding input_thread
  from_ping none evs is r v h = ([], refl, reads keys xlib pods [] [] is r tt h)
  from_ping (some got) evs is r v h =
      receive_loop-network keys xlib pods evs (fill_front new_buffer got) is r v
        (length-fill_front new_buffer got) h

  -- The server, whose socket could be bound, sends its pings, and the first read of the client
  -- gives one of them or fails. The client sends any list of events, and every read of the server
  -- gives one of the datagrams sent or fails, whichever it is: the network may lose datagrams,
  -- repeat them and change their order. The server's emulator ends in the state, with the requests,
  -- that handing it the events of the datagrams that came would give, and the server panics exactly
  -- where that would; no event comes if no ping did.
  pub receive_loop-input_thread :
      (fake_input : FakeInput) (k : Option ℕ) (evs : List LvInputEvent) (is : List (Option ℕ))
      → All EventFits evs
      → (r : Receiver) × (ds : List (List ℕ)) × (start_receive_loop true fake_input
          ≡ ok (replicate 5 ping, r))
        × (input_thread pods (pick (replicate 5 ping) k) (map some evs) ≡ ok ds)
        × ((receive_loop keys xlib pods (map (pick ds) is) r >>= λ u. ok (view u))
            ≡ emulate keys xlib
                (present (map (pick (sent_after (pick (replicate 5 ping) k) evs)) is))
                (fake_input, []))
  unfolding start_receive_loop
  receive_loop-input_thread fake_input k evs is v =
      let (ds, sent, same) = from_ping (pick (replicate 5 ping) k) evs is _ v refl in
      (_, ds, refl, sent, same)
