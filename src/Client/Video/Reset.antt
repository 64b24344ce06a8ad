-- ===== src/Client/Video/Reset.antt =====
-- The repair and the reset of `decode_loop` of client/src/decoder/video.rs, for a decoder that
-- answers as told.
use lightvideo.Prelude.{ℕ, ◌≡◌, ◌≢◌, refl, List, length, some, if◌then◌else◌, ok, slice, ne→==}
use lightvideo.Prelude.Words.{add16}
use lightvideo.Prelude.Runs.{done, return}
use lightvideo.Codec.{ErasureCode, Indexed}
use lightvideo.Rtp.{Rtp}
use lightvideo.Client.LvDecoder.{H264, LvDecoder}
use lightvideo.Client.Video.{
  L, restore, deliver_all, use_decoded, recover, enter_block, is_incomplete, reset_decoder,
}

module _ (code : ErasureCode) (rtp : Rtp) (h264 : H264) where
  open code use {ShardDecoder, decode, reset}
  open rtp use {Packet}

  abbrev pub S : Type 0
  S = L code rtp h264

  pub use_decoded_lem :
      (restored : Indexed) (q pending : List Packet) (w : LvDecoder h264) (s : S)
      → restore code rtp h264 restored s ≡ done tt (record s { rs_sendq = q })
      → slice q s.rs_inorder_packets (length q) ≡ ok pending
      → deliver_all code rtp h264 pending (record s { rs_sendq = q })
        ≡ done tt (record s { rs_sendq = q; video_dec = w })
      → use_decoded code rtp h264 (some restored) s
        ≡ done tt (record s { rs_sendq = q; video_dec = w })
  unfolding use_decoded
  use_decoded_lem restored q pending w s put part fed = rw put (rw part fed)

  -- The locals behind the repair.
  abbrev pub repaired : S → List Packet → LvDecoder h264 → S
  repaired s q w = record s {
    counters = record (s.counters) { out_of_order_blocks = add16 s.out_of_order_blocks 1 };
    rs_decoder = (decode s.rs_decoder).1;
    rs_sendq = q;
    video_dec = w;
    lvheader_prev_fragment_index = 3;
  }

  abbrev pub asked : S → S
  asked s = record s {
    counters = record (s.counters) { out_of_order_blocks = add16 s.out_of_order_blocks 1 };
    rs_decoder = (decode s.rs_decoder).1;
  }

  pub recover_lem :
      (restored : Indexed) (q : List Packet) (w : LvDecoder h264) (s : S)
      → (decode s.rs_decoder).0 ≡ some restored
      → use_decoded code rtp h264 (some restored) (asked s)
        ≡ done tt (record (asked s) { rs_sendq = q; video_dec = w })
      → recover code rtp h264 s ≡ done tt (repaired s q w)
  unfolding recover
  recover_lem restored q w s decoded used = rw decoded (rw used refl)

  abbrev pub counted_block : S → S
  counted_block s = record s {
    counters = record (s.counters) { total_blocks = add16 s.total_blocks 1 };
  }

  abbrev pub reopen : ℕ → ShardDecoder → S → S
  reopen id d s = record s {
    rs_inorder_packets = 0;
    rs_recovery_packets = 0;
    rs_oorder_packets = 0;
    rs_total_packets = 0;
    rs_decoder = d;
    block_id = id;
  }

  pub enter_block_lem :
      (id : ℕ) (s t : S) (d : ShardDecoder)
      → id ≢ s.block_id
      → (if is_incomplete code rtp h264 s then recover code rtp h264 else return tt)
          (counted_block s)
        ≡ done tt t
      → reset t.rs_decoder ≡ some d
      → enter_block code rtp h264 id s ≡ done tt (reopen id d t)
  unfolding enter_block
  enter_block_lem id s t d other ended emptied =
      rw (ne→== id s.block_id other) (rw ended (rw (emptied, reset_decoder) refl))
