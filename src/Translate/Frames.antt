-- ===== src/Translate/Frames.antt =====
-- translate.c, send_dmrd: the 53 bytes of a frame, and the counter of each peer.
use cc2obp.Common.{ℕ, ◌%◌, ◌≡◌, refl, List, [], length, get_or, take, drop, eq-tabulate}
use cc2obp.Wire.{wr24, wr32, rd24, rd32, rd24-wr24, rd32-wr32}
use cc2obp.Config.{link_at}
use cc2obp.Openbridge.Const.{
  dmrd_tag, src_off, dst_off, netid_off, flags_off, stream_off, payload_off,
}
use cc2obp.Translate.Handlers.{dmrd_body}
use cc2obp.Translate.{Env, Slot}

-- The 53 bytes of a frame, read at the offsets that a receiver uses: the tag, the low byte of the
-- counter, the source, the talkgroup, the source peer, the flags, the stream and the burst. The
-- stream has four bytes and the burst 33.
pub dmrd_body-fields :
    (e : Env) (i : ℕ) (s : Slot) (p flags : ℕ) (payload33 : List ℕ)
    → length s.lr.call.stream_id ≡ 4
    → length payload33 ≡ 33
    → let body = dmrd_body e i s p flags payload33 in
      (length body ≡ 53)
      × (take 4 body ≡ dmrd_tag)
      × (get_or body 4 0 ≡ s.ctr p % 256)
      × (rd24 (drop src_off body) ≡ s.lr.call.rf_src % 16777216)
      × (rd24 (drop dst_off body) ≡ (link_at e.cfg i).tgid % 16777216)
      × (rd32 (drop netid_off body) ≡ s.lr.call.cc_peer_id % 4294967296)
      × (get_or body flags_off 0 ≡ flags)
      × (take 4 (drop stream_off body) ≡ s.lr.call.stream_id)
      × (take 33 (drop payload_off body) ≡ payload33)
unfolding dmrd_body wr24 wr32 rd24 rd32
dmrd_body-fields e i s p flags payload33 four long =
    rw (eq-tabulate 4 s.lr.call.stream_id 0 four, eq-tabulate 33 payload33 0 long)
      (
        refl,
        refl,
        refl,
        rd24-wr24 s.lr.call.rf_src [],
        rd24-wr24 (link_at e.cfg i).tgid [],
        rd32-wr32 s.lr.call.cc_peer_id [],
        refl,
        refl,
        refl,
      )
