-- ===== src/Server/ErasureManager/Wedge.antt =====
-- What a failing `send_to` does to `LVErasureManager` of server/src/packager/packet.rs while it
-- sends recovery packets: the encoder is empty by then, and the block is still to be closed.
use lightvideo.Prelude.{
  ℕ, ◌+◌, ◌^◌, ◌<◌, ◌≡◌, ◌≢◌, refl, ap, sym, ◌∙◌, List, [], ◌∷◌, ◌++◌, length, take, drop, none,
  some, arith, length-drop, length-map, erasure_code, socket_io, All, eq→==, ne→==,
}
use lightvideo.Prelude.Runs.{failed}
use lightvideo.Net.Packet.{no_bytes, simd_packet_size}
use lightvideo.Net.Packet.Layout.{layout, to_bytes_lem, length-layout}
use lightvideo.Codec.{ErasureCode, EncoderLaws, Shard}
use lightvideo.Rtp.{Rtp, RtpLaws}
use lightvideo.Server.ErasureManager.{
  Host, Sender, send_recovery, send_recoveries, flush_block, emit, recovery_header, take_recovery,
  send_lv_packet,
}
use lightvideo.Server.ErasureManager.Recovery.{HasRoom, next_recovery, payload_copied, emptied}
use lightvideo.Server.ErasureManager.Blocks.{Block, Represents, shard}

-- The last block is to be closed, and the encoder lacks shards.
pub record IsWedged (code : ErasureCode) (s : Sender code.Enc) : Type 0 where
  pub index : s.current_regular_fragment_index ≡ 0
  pub block : s.current_block_id ≢ 0
  pub no_recovery : code.encode s.enc ≡ none

module _ (code : ErasureCode) (rtp : Rtp) (host : Host) where
  open code use {Enc}
  open rtp use {Packet}

  -- A wedged manager refuses every packet, sends nothing and stays as it is.
  pub send_lv_packet-wedged :
      (s : Sender Enc) (p : Packet)
      → IsWedged code s
      → send_lv_packet code rtp host p s ≡ failed erasure_code s
  unfolding send_lv_packet flush_block
  send_lv_packet-wedged s p w =
      rw (eq→== s.current_regular_fragment_index 0 w.index, ne→== s.current_block_id 0 w.block)
        (rw (w.no_recovery, take_recovery))

module _ (code : ErasureCode) (rtp : Rtp) (host : Host) where
  open code use {Enc}
  open rtp use {Packet}

  send_recovery_fails :
      (s : Sender Enc) (r : Shard)
      → ((d : List ℕ) → host.send_to s.sent d ≡ none)
      → HasRoom code rtp host s
      → length r ≡ simd_packet_size
      → (s' : Sender Enc) × (send_recovery code rtp host r s ≡ failed socket_io s')
        × (s'.enc ≡ s.enc)
        × (s'.current_block_id ≡ s.current_block_id)
        × (s'.current_regular_fragment_index ≡ s.current_regular_fragment_index)
        × (s'.sent ≡ s.sent)
  unfolding send_recovery emit
  send_recovery_fails s r broken room hr =
      let hd =
        recovery_header code rtp host (next_recovery code rtp host s.mgr) (host.now s.readings) in
      let n = s.largest_sized_payload in
      let rest = drop no_bytes s.pkt_data in
      let (p, c, d) =
        payload_copied code rtp host (layout hd) rest r n (length-layout hd room.sizes_len)
          (omega (arith, length-drop no_bytes s.pkt_data, room.data_len, room.largest_le))
          (omega (arith, room.largest_le)) in
      (
        record {
          mgr = record (next_recovery code rtp host s.mgr) {
            pkt_data = layout hd ++ (take n r ++ drop n rest);
          };
          sent = s.sent;
          readings = s.readings + 1;
        },
        rw (to_bytes_lem hd s.pkt_data room.sizes_len (omega (arith, room.data_len)))
            (rw p (rw c (rw d (rw (broken (layout hd ++ take n r), emit))))),
        refl,
        refl,
        refl,
        refl,
      )

  module _ (enc_laws : EncoderLaws code) (rtp_laws : RtpLaws rtp) where
    open enc_laws use {originals, recovery}

    flush_fails :
        (s : Sender Enc) (e : Enc) (rs : List Shard)
        → ((d : List ℕ) → host.send_to s.sent d ≡ none)
        → HasRoom code rtp host s
        → s.current_regular_fragment_index ≡ 0
        → s.current_block_id ≢ 0
        → code.encode s.enc ≡ some (rs, e)
        → originals e ≡ []
        → length rs ≡ 2
        → All (λ r. length r ≡ simd_packet_size) rs
        → (s' : Sender Enc) × (flush_block code rtp host s ≡ failed socket_io s')
          × (s'.sent ≡ s.sent)
          × IsWedged code s'
    unfolding flush_block send_recoveries
    flush_fails s e [] broken room hi hb enc emp two fine = absurd (omega arith)
    flush_fails s e (r ∷ rs) broken room hi hb enc emp two fine =
        let start = emptied code rtp host s e in
        let (s', run, same_enc, same_block, same_index, same_sent) =
          send_recovery_fails start r broken
            (record {
              data_len = room.data_len;
              sizes_len = room.sizes_len;
              largest_le = room.largest_le;
            })
            fine.0 in
        (
          s',
          rw (eq→== s.current_regular_fragment_index 0 hi, ne→== s.current_block_id 0 hb)
              (rw (enc, take_recovery) (rw run)),
          same_sent,
          record {
            index = same_index ∙ hi;
            block = λ z. hb (sym same_block ∙ z);
            no_recovery = rw same_enc (enc_laws.encode_partial e (omega (arith, ap length emp)));
          },
        )

    -- From a manager that stands for a full block, a socket that refuses the first recovery
    -- datagram makes `send_lv_packet` return the socket's error with nothing sent, and from then
    -- on, over any socket and for any packet, every call returns an error of the erasure code,
    -- sends nothing and leaves the manager as it is.
    pub failed_recovery_wedges :
        (s : Sender Enc) (b : Block code rtp host enc_laws rtp_laws) (p : Packet)
        → Represents code rtp host enc_laws rtp_laws s b
        → length b.packets ≡ 4
        → b.id + 1 < 2 ^ 32
        → ((d : List ℕ) → host.send_to s.sent d ≡ none)
        → (s' : Sender Enc) × (send_lv_packet code rtp host p s ≡ failed socket_io s')
          × (s'.sent ≡ s.sent)
          × ((later : Host) (q : Packet)
              → send_lv_packet code rtp later q s' ≡ failed erasure_code s')
    unfolding send_lv_packet
    failed_recovery_wedges s b p r full small broken =
        let d = originals s.enc in
        let (e, enc, emp) = enc_laws.encode_full s.enc (
          omega (
            arith,
            ap length r.shards,
            length-map (shard code rtp host enc_laws rtp_laws) b.packets,
          )) in
        let (s', run, same, wedged) =
          flush_fails s e (recovery d) broken r.room (ground (arith, r.index, full))
            (ground (arith, r.block_id, full)) enc emp (enc_laws.length-recovery d)
            (enc_laws.shards-recovery d) in
        (s', rw run, same, λ later q. send_lv_packet-wedged code rtp later s' q wedged)
