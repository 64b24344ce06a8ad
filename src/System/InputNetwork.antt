-- ===== src/System/InputNetwork.antt =====
-- The input channel over UDP: the datagrams of client/src/decoder/input.rs on their way to
-- server/src/server/input_server.rs, when the network loses, repeats and reorders them.
use lightvideo.Prelude.{
  ℕ, zero, suc, ◌≡◌, refl, List, [], ◌∷◌, ◌++◌, length, map, All, Option, none, some, get_elem?, ok,
  ◌>>=◌, arith,
}
use lightvideo.Net.Input.{LvInputEvent, KeyTable, input_packet_size}
use lightvideo.Net.Pod.{Bytemuck, EventFits}
use lightvideo.Client.Input.{send_loop}
use lightvideo.Server.X11.{Xlib, write_event}
use lightvideo.Server.InputServer.{Receiver, apply_event, receive_round, receive_loop}
use lightvideo.System.InputPath.{Carries}
use lightvideo.System.InputRelay.{
  emulate, emulate_one, view, AllCarry, receive_round-Carries, send_loop-carries,
}

-- What a read gives: one of the things sent, by its number, or an error.
abbrev pub pick {ℓ} : {A : Type ℓ} → List A → Option ℕ → Option A
pick xs none = none
pick xs (some i) = get_elem? xs i

-- Those that are there.
abbrev pub present {ℓ} : {A : Type ℓ} → List (Option A) → List A
present [] = []
present (none ∷ xs) = present xs
present (some x ∷ xs) = x ∷ present xs

module _ (keys : KeyTable) (xlib : Xlib) (pods : Bytemuck) where
  abbrev Match : Option LvInputEvent → Option (List ℕ) → Type 0
  Match none none = Unit {0}
  Match none (some d) = ⊥
  Match (some ev) none = ⊥
  Match (some ev) (some d) = Carries pods ev d

  get-Match :
      (evs : List LvInputEvent) (ds : List (List ℕ)) (i : ℕ)
      → AllCarry keys xlib pods evs ds
      → Match (get_elem? evs i) (get_elem? ds i)
  get-Match [] [] i c = tt
  get-Match [] (d ∷ ds) i c = absurd c
  get-Match (ev ∷ evs) [] i c = absurd c
  get-Match (ev ∷ evs) (d ∷ ds) zero c = c.0
  get-Match (ev ∷ evs) (d ∷ ds) (suc i) c = get-Match evs ds i c.1

  pick-Match :
      (evs : List LvInputEvent) (ds : List (List ℕ)) (o : Option ℕ)
      → AllCarry keys xlib pods evs ds
      → Match (pick evs o) (pick ds o)
  pick-Match evs ds none c = tt
  pick-Match evs ds (some i) c = get-Match evs ds i c

  -- A read that gives a datagram, in front of the others.
  one_datagram :
      (ev : LvInputEvent) (d : List ℕ) (es : List (Option LvInputEvent))
      (ds : List (Option (List ℕ))) (r : Receiver)
      → length r.buf ≡ input_packet_size
      → Carries pods ev d
      → ((r' : Receiver)
          → length r'.buf ≡ input_packet_size
          → (receive_loop keys xlib pods ds r' >>= λ u. ok (view u))
            ≡ emulate keys xlib (present es) (view r'))
      → (receive_loop keys xlib pods (some d ∷ ds) r >>= λ u. ok (view u))
        ≡ emulate keys xlib (ev ∷ present es) (view r)
  unfolding receive_loop emulate apply_event emulate_one
  one_datagram ev d es ds r h c rest =
      let w = write_event keys xlib ev r.fake_input in
      let r1 : Receiver = record {
        buf = d;
        fake_input = w.fake_input;
        requests = r.requests ++ w.sent;
      } in
      ground (arith, receive_round-Carries keys xlib pods ev d r h c, rest r1 c.0)

  -- One read in front of the others.
  one_read :
      (e : Option LvInputEvent) (d : Option (List ℕ)) (es : List (Option LvInputEvent))
      (ds : List (Option (List ℕ))) (r : Receiver)
      → length r.buf ≡ input_packet_size
      → Match e d
      → ((r' : Receiver)
          → length r'.buf ≡ input_packet_size
          → (receive_loop keys xlib pods ds r' >>= λ u. ok (view u))
            ≡ emulate keys xlib (present es) (view r'))
      → (receive_loop keys xlib pods (d ∷ ds) r >>= λ u. ok (view u))
        ≡ emulate keys xlib (present (e ∷ es)) (view r)
  unfolding receive_loop receive_round
  one_read none none es ds r h m rest = rest r h
  one_read none (some d) es ds r h m rest = absurd m
  one_read (some ev) none es ds r h m rest = absurd m
  one_read (some ev) (some d) es ds r h m rest = one_datagram ev d es ds r h m rest

  pub reads :
      (evs : List LvInputEvent) (ds : List (List ℕ)) (is : List (Option ℕ)) (r : Receiver)
      → AllCarry keys xlib pods evs ds
      → length r.buf ≡ input_packet_size
      → (receive_loop keys xlib pods (map (pick ds) is) r >>= λ u. ok (view u))
        ≡ emulate keys xlib (present (map (pick evs) is)) (view r)
  unfolding receive_loop emulate
  reads evs ds [] r c h = refl
  reads evs ds (i ∷ is) r c h =
      one_read (pick evs i) (pick ds i) (map (pick evs) is) (map (pick ds) is) r h
        (pick-Match evs ds i c) (λ r' h'. reads evs ds is r' c h')

  -- The client sends any list of events, from any 24-byte buffer. Every read of the server gives one
  -- of the datagrams sent or fails, whichever it is: the network may lose datagrams, repeat them and
  -- change their order. The server's emulator ends in the state, with the requests, that handing it
  -- the events of the datagrams that came would give, and the server panics exactly where that would.
  pub receive_loop-network :
      (evs : List LvInputEvent) (buf : List ℕ) (is : List (Option ℕ)) (r : Receiver)
      → All EventFits evs
      → length buf ≡ input_packet_size
      → length r.buf ≡ input_packet_size
      → (ds : List (List ℕ)) × (send_loop pods (map some evs) buf ≡ ok ds)
        × ((receive_loop keys xlib pods (map (pick ds) is) r >>= λ u. ok (view u))
            ≡ emulate keys xlib (present (map (pick evs) is)) (view r))
  receive_loop-network evs buf is r v h k =
      let (ds, p, c) = send_loop-carries keys xlib pods evs buf v h in
      (ds, p, reads evs ds is r c k)
