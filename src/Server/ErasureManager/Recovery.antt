-- ===== src/Server/ErasureManager/Recovery.antt =====
-- What `send_lv_packet` of server/src/packager/packet.rs sends at the end of a block.
use lightvideo.Prelude.{
  ℕ, ◌+◌, ◌%◌, ◌≤◌, ◌≡◌, ◌≢◌, ◌⊎◌, refl, ap, sym, ◌∙◌, List, [], ◌∷◌, ◌++◌, length, take, drop, ok,
  arith, length-append, length-drop, slice, slice-ok, copy_into, take-append-drop, length-take, All,
  eq→==, ne→==,
}
use lightvideo.Prelude.Slices.{slice-front, copy_into-at}
use lightvideo.Prelude.Words.{add32}
use lightvideo.Prelude.Runs.{done}
use lightvideo.Net.Packet.{
  no_bytes, simd_packet_size, ec_ratio_regular_packets, ec_ratio_recovery_packets,
}
use lightvideo.Net.Packet.Layout.{layout, to_bytes_lem, length-layout}
use lightvideo.Codec.{ErasureCode, EncoderLaws, Shard}
use lightvideo.Rtp.{Rtp}
use lightvideo.Server.ErasureManager.{
  Host, Sender, LvErasureManager, send_recovery, send_recoveries, flush_block, emit,
  recovery_header, take_recovery,
}
use lightvideo.Server.ErasureManager.Regular.{Reliable}

module _ (code : ErasureCode) (rtp : Rtp) (host : Host) where
  open code use {Enc, encode}

  abbrev pub next_recovery : LvErasureManager Enc → LvErasureManager Enc
  next_recovery m = record m {
    current_recovery_fragment_index =
        add32 m.current_recovery_fragment_index 1 % ec_ratio_recovery_packets;
  }

  -- The header and the payload of one recovery datagram.
  abbrev pub recovery_layout : Sender Enc → List ℕ
  recovery_layout s =
      layout (recovery_header code rtp host (next_recovery s.mgr) (host.now s.readings))

  abbrev pub sent_recovery : Sender Enc → Shard → Sender Enc
  sent_recovery s shard =
      let payload = take s.largest_sized_payload shard in
      record {
        mgr = record (next_recovery s.mgr) {
          pkt_data =
              recovery_layout s
              ++ (payload ++ drop s.largest_sized_payload (drop no_bytes s.pkt_data));
        };
        sent = s.sent ++ ((recovery_layout s ++ payload) ∷ []);
        readings = s.readings + 1;
      }

  -- What a state needs for its buffers to be in range.
  pub record HasRoom (s : Sender Enc) : Type 0 where
    pub data_len : length s.pkt_data ≡ simd_packet_size + no_bytes
    pub sizes_len : length s.pkt_sizes ≡ 4
    pub largest_le : s.largest_sized_payload ≤ simd_packet_size

  pub payload_copied :
      (h rest shard : List ℕ) (n : ℕ)
      → length h ≡ no_bytes
      → n ≤ length rest
      → n ≤ length shard
      → (slice shard 0 n ≡ ok (take n shard))
        × (copy_into (h ++ rest) no_bytes (take n shard) ≡ ok (h ++ (take n shard ++ drop n rest)))
        × (slice (h ++ (take n shard ++ drop n rest)) 0 (n + no_bytes) ≡ ok (h ++ take n shard))
  payload_copied h rest shard n hh hr hs = (
    slice-ok shard 0 n (omega arith) hs ∙ ap (λ k. ok (take k shard)) (omega arith),
    ap (λ xs. copy_into (h ++ xs) no_bytes (take n shard)) (sym (take-append-drop n rest))
        ∙ copy_into-at h (take n rest) (drop n rest) (take n shard) no_bytes (sym hh)
            (omega (arith, length-take n shard, length-take n rest)),
    slice-front h (take n shard) (drop n rest) (n + no_bytes) (omega (arith, length-take n shard)),
  )

  send_recovery_sends :
      (s : Sender Enc) (shard : Shard)
      → Reliable host
      → HasRoom s
      → length shard ≡ simd_packet_size
      → send_recovery code rtp host shard s ≡ done tt (sent_recovery s shard)
  unfolding send_recovery emit
  send_recovery_sends s shard reliable room hs =
      let hd = recovery_header code rtp host (next_recovery s.mgr) (host.now s.readings) in
      let n = s.largest_sized_payload in
      let rest = drop no_bytes s.pkt_data in
      let (p, c, d) =
        payload_copied (layout hd) rest shard n (length-layout hd room.sizes_len)
          (omega (arith, length-drop no_bytes s.pkt_data)) (omega arith) in
      rw (to_bytes_lem hd s.pkt_data room.sizes_len (omega arith))
        (rw p (rw c (rw d (rw (reliable s.sent (layout hd ++ take n shard), emit)))))

  pub sent_recovery-HasRoom :
      (s : Sender Enc) (shard : Shard)
      → HasRoom s
      → length shard ≡ simd_packet_size
      → HasRoom (sent_recovery s shard)
  sent_recovery-HasRoom s shard room hs = record {
    data_len = omega (
      arith,
      length-append (recovery_layout s) (
          take s.largest_sized_payload shard
          ++ drop s.largest_sized_payload (drop no_bytes s.pkt_data)),
      length-append (take s.largest_sized_payload shard)
          (drop s.largest_sized_payload (drop no_bytes s.pkt_data)),
      length-layout (recovery_header code rtp host (next_recovery s.mgr) (host.now s.readings))
          room.sizes_len,
      length-take s.largest_sized_payload shard,
      length-drop s.largest_sized_payload (drop no_bytes s.pkt_data),
      length-drop no_bytes s.pkt_data,
      room.data_len,
      room.largest_le,
      hs,
    );
    sizes_len = room.sizes_len;
    largest_le = room.largest_le;
  }

  abbrev pub sent_recoveries : Sender Enc → List Shard → Sender Enc
  sent_recoveries s [] = s
  sent_recoveries s (shard ∷ shards) = sent_recoveries (sent_recovery s shard) shards

  send_recoveries_sends :
      (shards : List Shard) (s : Sender Enc)
      → Reliable host
      → HasRoom s
      → All (λ r. length r ≡ simd_packet_size) shards
      → send_recoveries code rtp host shards s ≡ done tt (sent_recoveries s shards)
  unfolding send_recoveries
  send_recoveries_sends [] s reliable room hs = refl
  send_recoveries_sends (shard ∷ shards) s reliable room hs =
      rw (send_recovery_sends s shard reliable room hs.0) (
        send_recoveries_sends shards (sent_recovery s shard) reliable
          (sent_recovery-HasRoom s shard room hs.0) hs.1)

  abbrev pub emptied : Sender Enc → Enc → Sender Enc
  emptied s e = record s { mgr = record (s.mgr) { enc = e } }

  abbrev pub closed : Sender Enc → Sender Enc
  closed s = record s { mgr = record (s.mgr) { largest_sized_payload = 0 } }

  -- At the first packet of a block but the first, with four shards in the encoder.
  pub flush_block_sends :
      (laws : EncoderLaws code) (s : Sender Enc)
      → Reliable host
      → HasRoom s
      → s.current_regular_fragment_index ≡ 0
      → s.current_block_id ≢ 0
      → length (laws.originals s.enc) ≡ ec_ratio_regular_packets
      → (e : Enc) × (laws.originals e ≡ [])
        × (flush_block code rtp host s
            ≡ done tt
                (closed (sent_recoveries (emptied s e) (laws.recovery (laws.originals s.enc)))))
  unfolding flush_block
  flush_block_sends laws s reliable room hi hb full =
      let d = laws.originals s.enc in
      let (e, enc, emp) = laws.encode_full s.enc full in
      (
        e,
        emp,
        rw (eq→== s.current_regular_fragment_index 0 hi, ne→== s.current_block_id 0 hb)
            (rw (enc, take_recovery)
              (rw (
                send_recoveries_sends (laws.recovery d) (emptied s e) reliable
                  (record {
                    data_len = room.data_len;
                    sizes_len = room.sizes_len;
                    largest_le = room.largest_le;
                  })
                  (laws.shards-recovery d)))),
      )

  -- At every other packet.
  pub flush_block_skips :
      (s : Sender Enc)
      → (s.current_regular_fragment_index ≢ 0) ⊎ (s.current_block_id ≡ 0)
      → flush_block code rtp host s ≡ done tt s
  unfolding flush_block
  flush_block_skips s h = ground arith
