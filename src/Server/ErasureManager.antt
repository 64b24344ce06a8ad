-- ===== src/Server/ErasureManager.antt =====
-- server/src/packager/packet.rs: `LVErasureManager`, which puts the header in front of each RTP
-- packet and two recovery packets behind each block of four. The integer fields wrap as in a
-- release build.
pub mod Regular
pub mod Recovery
pub mod Blocks
pub mod Steps
pub mod Refine
pub mod Wedge
use lightvideo.Prelude.{
  ℕ, zero, suc, ◌+◌, ◌-◌, ◌*◌, ◌%◌, ◌^◌, ◌<◌, ◌≡◌, Bool, true, false, not, ◌&&◌, List, [], ◌∷◌,
  ◌++◌, length, set, take, drop, replicate, Option, none, some, ◌==◌, ltb, if◌then◌else◌, Outcome,
  ok, err, panic, slice, copy_into, erasure_code, socket_io, rtp_marshal, check, max,
}
use lightvideo.Prelude.Words.{add32, sub32, as_u16}
use lightvideo.Prelude.Runs.{
  Ran, done, failed, panicked, M, and_then, ◌>>=◌, ◌>>◌, return, get, modify, lift, throw,
}
use lightvideo.Net.Packet.{
  LvErasureInformation, to_bytes, no_bytes, ec_ratio_recovery_packets, ec_ratio_regular_packets,
  simd_packet_size,
}
use lightvideo.Codec.{ErasureCode, Shard}
use lightvideo.Rtp.{Rtp}

-- The operating system: `send_to` takes a datagram whole, given those taken before, and answers
-- with a number of bytes or fails; `now` is the n-th reading of the clock, in milliseconds of the
-- epoch.
pub record Host : Type 0 where
  pub send_to : List (List ℕ) → List ℕ → Option ℕ
  pub now : ℕ → ℕ

pub record LvErasureManager (Enc : Type 0) : Type 0 where
  pub enc : Enc
  pub current_block_id : ℕ
  pub current_regular_fragment_index : ℕ
  pub current_recovery_fragment_index : ℕ
  pub largest_sized_payload : ℕ
  pub pkt_data : List ℕ
  pub pkt_sizes : List ℕ

-- The manager with what the host has seen: datagrams sent, and readings of the clock.
pub record Sender (Enc : Type 0) : Type 0 where
  pub mgr : LvErasureManager Enc
  pub open mgr use *
  pub sent : List (List ℕ)
  pub readings : ℕ

abbrev pub no_sizes : List ℕ
no_sizes = replicate ec_ratio_regular_packets 0

module _ (code : ErasureCode) (rtp : Rtp) (host : Host) where
  open code use {Enc, new_encoder, add_original, encode}
  open rtp use {Packet, marshal_size, marshal_to}

  -- `LVErasureManager::new`, when the encoder can be made.
  unfoldable pub new : LvErasureManager Enc
  new = record {
    enc = new_encoder;
    current_block_id = 0;
    current_regular_fragment_index = 0;
    current_recovery_fragment_index = ec_ratio_recovery_packets - 1;
    largest_sized_payload = 0;
    pkt_data = replicate (simd_packet_size + no_bytes) 0;
    pkt_sizes = no_sizes;
  }

  -- `socket.send_to(datagram, target_addr)?`
  unfoldable pub emit : List ℕ → M (Sender Enc) ℕ
  emit datagram s = elim (host.send_to s.sent datagram) [
    | none ↦ failed socket_io s
    | some n ↦ done n (record s { sent = s.sent ++ (datagram ∷ []) })
  ]

  -- `SystemTime::now()` in milliseconds.
  abbrev pub read_clock : M (Sender Enc) ℕ
  read_clock s = done (host.now s.readings) (record s { readings = s.readings + 1 })

  abbrev pub put_data : List ℕ → M (Sender Enc) (Unit {0})
  put_data bytes s = done tt (record s { mgr = record (s.mgr) { pkt_data = bytes } })

  abbrev pub recovery_header : LvErasureManager Enc → ℕ → LvErasureInformation
  recovery_header m stamp = record {
    block_id = sub32 m.current_block_id 1;
    min_fragment_size = ec_ratio_regular_packets;
    recovery_pkt = true;
    fragment_index = m.current_recovery_fragment_index;
    pkt_sizes = m.pkt_sizes;
    send_timestamp = stamp;
  }

  -- The body of the loop over `recovery_iter()`.
  unfoldable pub send_recovery : Shard → M (Sender Enc) (Unit {0})
  unfolding emit
  send_recovery shard = do
    modify λ s. record s {
      mgr = record (s.mgr) {
        current_recovery_fragment_index =
            add32 s.current_recovery_fragment_index 1 % ec_ratio_recovery_packets;
      };
    }
    stamp ← read_clock
    s ← get
    data' ← lift (to_bytes (recovery_header s.mgr stamp) s.pkt_data)
    payload ← lift (slice shard 0 s.largest_sized_payload)
    data' ← lift (copy_into data' no_bytes payload)
    put_data data'
    datagram ← lift (slice data' 0 (s.largest_sized_payload + no_bytes))
    n ← emit datagram
    return tt

  unfoldable pub send_recoveries : List Shard → M (Sender Enc) (Unit {0})
  unfolding send_recovery
  send_recoveries [] = return tt
  send_recoveries (shard ∷ shards) = send_recovery shard >> send_recoveries shards

  -- `self.enc.encode()?`
  abbrev pub take_recovery : M (Sender Enc) (List Shard)
  take_recovery s = elim (encode s.enc) [
    | none ↦ failed erasure_code s
    | some (shards, e) ↦ done shards (record s { mgr = record (s.mgr) { enc = e } })
  ]

  -- The recovery packets of the last block, when the next one begins.
  unfoldable pub flush_block : M (Sender Enc) (Unit {0})
  unfolding send_recoveries
  flush_block s =
      if s.current_regular_fragment_index == 0 && not (s.current_block_id == 0)
      then (do
        shards ← take_recovery
        send_recoveries shards
        modify λ s. record s { mgr = record (s.mgr) { largest_sized_payload = 0 } })
          s
      else done tt s

  -- The next fragment index, the next block id after the last fragment, and the largest payload.
  unfoldable pub advance : ℕ → LvErasureManager Enc → LvErasureManager Enc
  advance size m =
      let index = add32 m.current_regular_fragment_index 1 % ec_ratio_regular_packets in
      record m {
        current_regular_fragment_index = index;
        current_block_id = if index == 0 then add32 m.current_block_id 1 else m.current_block_id;
        largest_sized_payload =
            if ltb m.largest_sized_payload size then size else m.largest_sized_payload;
      }

  -- `rtp.marshal_to(&mut rtp_slice)?` into `pkt_data[37..37 + marshal_size]`, and `fill(0)` on the
  -- rest.
  unfoldable pub marshal_into : Packet → List ℕ → Outcome (List ℕ × Bool)
  marshal_into packet data' =
      let after : ℕ = no_bytes + marshal_size packet in
      elim (slice data' no_bytes after) [
        | ok window ↦
            let (fits, bytes) = marshal_to packet window in
            ok (
              if fits
                  then take no_bytes data' ++ (bytes ++ replicate (length data' - after) 0)
                  else take no_bytes data' ++ (bytes ++ drop after data'),
              fits,
            )
        | err e ↦ err e
        | panic ↦ panic
      ]

  -- `self.enc.add_original_shard(shard)?`
  abbrev pub add_shard : Shard → M (Sender Enc) (Unit {0})
  add_shard shard s = elim (add_original s.enc shard) [
    | none ↦ failed erasure_code s
    | some e ↦ done tt (record s { mgr = record (s.mgr) { enc = e } })
  ]

  -- From the second reading of the clock to the end of the function. `pk` is the header that was
  -- made on entry.
  unfoldable pub send_regular : LvErasureInformation → Packet → M (Sender Enc) ℕ
  unfolding emit marshal_into
  send_regular pk packet = do
    stamp ← read_clock
    s ← get
    data' ← lift (to_bytes (record pk { send_timestamp = stamp }) s.pkt_data)
    put_data data'
    lift (check (ltb pk.fragment_index (length s.pkt_sizes)))
    modify λ s. record s {
      mgr = record (s.mgr) {
        pkt_sizes = set s.pkt_sizes pk.fragment_index (as_u16 (marshal_size packet));
      };
    }
    (data', fits) ← lift (marshal_into packet data')
    put_data data'
    (if fits then return tt else throw rtp_marshal)
    shard ← lift (slice data' no_bytes (length data'))
    add_shard shard
    datagram ← lift (slice data' 0 (no_bytes + marshal_size packet))
    emit datagram

  abbrev pub entry_header : LvErasureManager Enc → LvErasureInformation
  entry_header m = record {
    block_id = m.current_block_id;
    min_fragment_size = ec_ratio_regular_packets;
    recovery_pkt = false;
    fragment_index = m.current_regular_fragment_index;
    pkt_sizes = no_sizes;
    send_timestamp = 0;
  }

  unfoldable pub send_lv_packet : Packet → M (Sender Enc) ℕ
  unfolding flush_block advance send_regular
  send_lv_packet packet s =
      let pk = entry_header s.mgr in
      (do
        flush_block
        modify λ s. record s { mgr = advance (marshal_size packet) s.mgr }
        send_regular pk packet)
        s
