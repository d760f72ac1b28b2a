-- ===== src/Translate/Relay.antt =====
-- Two translators in a row: what one sends for a call from CC-CC, the other turns back into it.
pub mod Bon
use cc2obp.Common.{
  ℕ, zero, suc, ◌+◌, ◌*◌, ◌%◌, ◌<◌, ◌≡◌, refl, ap, ◌∙◌, true, false, not, some, List, [], ◌∷◌, ◌++◌,
  arith, if◌then◌else◌, length, get_or, take, drop,
}
use cc2obp.Wire.{rd24, rd32}
use cc2obp.Config.{link_at}
use cc2obp.Openbridge.Const.{src_off, netid_off, flags_off, stream_off, payload_off}
use cc2obp.Translate.Handlers.{
  obp_gate_open, dmrd_body, send_dmrd_frame, send_obp_voice_head, send_obp_voice_term,
  end_obp_origin_call, end_cc_origin_call, start_obp_call, handle_obp_voice_head, relay_obp_burst,
  handle_obp_voice_burst, handle_obp_voice_term, slot_index,
}
use cc2obp.Translate.Incoming.{
  call_lc, is_head, is_term, is_dropped, cc_voice_payload, voice_flags, start_cc_call,
  translator_cccc_bon, relay_cc_voice, translator_cccc_voice, translator_cccc_boff, dmrd_open,
  link_dmrd_received,
}
use cc2obp.Translate.{
  from_cc, CallState, Env, Slot, send_bon, send_boff, send_voice, send_dmrd, in_cc_call,
  in_obp_call, with_call, with_has_call, with_logged,
}
use cc2obp.Dmr.Bits.{IsBytes}
use cc2obp.Dmr.Emblc.{encode_emblc}
use cc2obp.Translate.Frames.{dmrd_body-fields}
use cc2obp.Translate.Voice.{voice_transparent, length-cc_voice_payload}
use cc2obp.Translate.Header.{length-payload}
use cc2obp.Cccc.Ambe.{pack21}
use cc2obp.Translate.Burst.{extract_ambe, build_head_term_payload}
use cc2obp.Translate.Calls.{owns}
use cc2obp.Translate.{zero_call}

-- The flags of a voice burst are those of no header and of no terminator, and are not dropped.
voice_flags-kinds :
    (pos : ℕ)
    → pos < 6
    → (is_head (voice_flags pos) ≡ false)
      × (is_term (voice_flags pos) ≡ false)
      × (is_dropped (voice_flags pos) ≡ false)
unfolding is_head is_term is_dropped voice_flags
voice_flags-kinds zero h = (refl, refl, refl)
voice_flags-kinds (suc zero) h = (refl, refl, refl)
voice_flags-kinds (suc (suc zero)) h = (refl, refl, refl)
voice_flags-kinds (suc (suc (suc zero))) h = (refl, refl, refl)
voice_flags-kinds (suc (suc (suc (suc zero)))) h = (refl, refl, refl)
voice_flags-kinds (suc (suc (suc (suc (suc zero))))) h = (refl, refl, refl)
voice_flags-kinds (suc (suc (suc (suc (suc (suc pos)))))) h = absurd (omega arith)

-- The sender's link `i` has peer `p` and an open gate, and so has the receiver's link `j`.
module _ (e f : Env) (i j p : ℕ) (peer : (link_at e.cfg i).openbridge_idx ≡ some p)
    (on : (link_at e.cfg i).enabled ≡ true) (open_e : obp_gate_open e i ≡ true)
    (on_f : (link_at f.cfg j).enabled ≡ true) (open_f : obp_gate_open f j ≡ true) where
  pub frame_sent :
      (u : Slot) (flags : ℕ) (payload33 : List ℕ)
      → (send_dmrd_frame e i flags payload33 u).1
        ≡ send_dmrd i p (dmrd_body e i u p flags payload33) ∷ []
  unfolding send_dmrd_frame
  frame_sent u flags payload33 = rw (peer, send_dmrd_frame) refl

  pub received_head :
      (body : List ℕ) (t : Slot)
      → get_or body flags_off 0 ≡ 0x21
      → t.lr.has_call ≡ false
      → (link_dmrd_received f j body t).1
        ≡ send_bon j
            (rd24 (drop src_off body))
            (rd32 (drop netid_off body))
            (link_at f.cfg j).cc_lid
            (link_at f.cfg j).tgid
          ∷ []
  unfolding link_dmrd_received dmrd_open handle_obp_voice_head start_obp_call is_head
  received_head body t flags idle = rw (on_f, flags, open_f, idle) refl

  received_term :
      (body : List ℕ) (t : Slot)
      → get_or body flags_off 0 ≡ 0x22
      → owns (take 4 (drop stream_off body)) t ≡ true
      → (link_dmrd_received f j body t).1
        ≡ send_boff j 0 (if t.lr.call.cc_sent_first then t.lr.call.cc_seq + 1 else 0) ∷ []
  unfolding link_dmrd_received dmrd_open handle_obp_voice_term end_obp_origin_call is_head is_term
  received_term body t flags own = rw (on_f, flags, open_f, own, both_true own) refl
    where
      both_true : owns (take 4 (drop stream_off body)) t ≡ true → in_obp_call t ≡ true
      both_true own = ground arith

  received_voice :
      (body : List ℕ) (t : Slot)
      → is_head (get_or body flags_off 0) ≡ false
      → is_term (get_or body flags_off 0) ≡ false
      → owns (take 4 (drop stream_off body)) t ≡ true
      → (link_dmrd_received f j body t).1
        ≡ (relay_obp_burst f j (take 33 (drop payload_off body)) t).1
  unfolding link_dmrd_received dmrd_open handle_obp_voice_burst
  received_voice body t head term own = rw (on_f, head, term, open_f, own) refl

  -- A voice payload of the sender's call becomes one DMRD frame, and that frame a voice packet at
  -- the receiver with the very bytes of the payload. The receiver has the stream of the sender's
  -- call, the sender's call holds its own link control, and the payload has 21 bytes of which the
  -- last seven bits of each unit are clear.
  pub relay_voice :
      (s t : Slot) (ambe21 : List ℕ)
      → in_cc_call s ≡ true
      → (link_at e.cfg i).cross_connect_active ≡ true
      → length s.lr.call.stream_id ≡ 4
      → s.lr.call.emb ≡ encode_emblc s.lr.call.lc
      → owns s.lr.call.stream_id t ≡ true
      → length ambe21 ≡ 21
      → IsBytes ambe21
      → get_or ambe21 6 0 % 128 ≡ 0
      → get_or ambe21 13 0 % 128 ≡ 0
      → get_or ambe21 20 0 % 128 ≡ 0
      → (body : List ℕ) × (is_dropped (get_or body flags_off 0) ≡ false)
        × ((translator_cccc_voice e i ambe21 s).1 ≡ send_dmrd i p body ∷ [])
        × ((link_dmrd_received f j body t).1
            ≡ send_voice j
                (slot_index f.now t.lr.call.call_start_time % 65536)
                (480 * (slot_index f.now t.lr.call.call_start_time % 4294967296) % 4294967296)
                (not t.lr.call.cc_sent_first)
                ambe21
              ∷ [])
  unfolding translator_cccc_voice relay_cc_voice relay_obp_burst
  relay_voice s t ambe21 up active four emb own n bytes q6 q13 q20 =
      let (_, _, _, _, _, _, flags, stream, payload) =
        dmrd_body-fields e i u p (voice_flags pos) burst four long in
      (
        dmrd_body e i u p (voice_flags pos) burst,
        ap is_dropped flags ∙ (voice_flags-kinds pos small).2,
        rw (up, active) (ap (λ acts. acts ++ []) (frame_sent u (voice_flags pos) burst)),
        received_voice _ t (ap is_head flags ∙ (voice_flags-kinds pos small).0)
              (ap is_term flags ∙ (voice_flags-kinds pos small).1) (ap (λ x. owns x t) stream ∙ own)
            ∙ ap
                (λ x.
                  send_voice j (slot % 65536) (480 * (slot % 4294967296) % 4294967296)
                    (not t.lr.call.cc_sent_first) x
                  ∷ [])
                (ap (λ x. pack21 (extract_ambe x)) payload ∙ heard),
      )
    where
      slot : ℕ
      slot = slot_index f.now t.lr.call.call_start_time

      pos : ℕ
      pos = s.lr.call.obp_seq_pos % 6

      small : pos < 6
      small = omega arith

      u : Slot
      u = with_call s (record s.lr.call { last_activity = e.now })

      burst : List ℕ
      burst = cc_voice_payload s.lr.call.emb pos ambe21

      long : length burst ≡ 33
      long = rw emb (length-cc_voice_payload s.lr.call.lc pos ambe21 small)

      heard : pack21 (extract_ambe burst) ≡ ambe21
      heard = rw emb (voice_transparent s.lr.call.lc pos ambe21 small n bytes q6 q13 q20)

  -- A B-off for the sender's call becomes one DMRD frame, and that frame a B-off at the receiver,
  -- with no loss and the slots since the start of the call, or none if no voice has come. The
  -- receiver has the stream of the sender's call.
  pub relay_boff :
      (s t : Slot)
      → in_cc_call s ≡ true
      → length s.lr.call.stream_id ≡ 4
      → owns s.lr.call.stream_id t ≡ true
      → (body : List ℕ) × (is_dropped (get_or body flags_off 0) ≡ false)
        × ((translator_cccc_boff e i s).1 ≡ send_dmrd i p body ∷ [])
        × ((link_dmrd_received f j body t).1
            ≡ send_boff j 0 (if t.lr.call.cc_sent_first then t.lr.call.cc_seq + 1 else 0) ∷ [])
  unfolding translator_cccc_boff end_cc_origin_call send_obp_voice_term is_dropped
  relay_boff s t up four own =
      let (_, _, _, _, _, _, flags, stream, _) =
        dmrd_body-fields e i s p 0x22 (build_head_term_payload s.lr.call.lc true) four
          (length-payload s.lr.call.lc true) in
      (
        dmrd_body e i s p 0x22 (build_head_term_payload s.lr.call.lc true),
        ap is_dropped flags,
        rw up (
            ap (λ acts. acts ++ [])
              (frame_sent s 0x22 (build_head_term_payload s.lr.call.lc true))),
        received_term _ t flags (ap (λ x. owns x t) stream ∙ own),
      )
