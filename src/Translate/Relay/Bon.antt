-- ===== src/Translate/Relay/Bon.antt =====
-- translate.c and openbridge/obp_link.c: a B-on over OpenBridge, signed on the way and checked.
use Prim.Native.Nat.{bit_and}
use cc2obp.Common.{
  ℕ, ◌%◌, ◌<◌, ◌≡◌, ap, ap₂, ◌∙◌, true, false, some, List, [], ◌∷◌, length, get_or, take, take-all,
}
use cc2obp.Config.{link_at, peer_at}
use cc2obp.Dmr.Emblc.{encode_emblc}
use cc2obp.Openbridge.Const.{flags_off, flag_slot2}
use cc2obp.Openbridge.Datagrams.{Datagram, own_body, obp_send_dmrd, on_obp_readable}
use cc2obp.Openbridge.Datagrams.Accepted.{
  carried_peer, own_body-fields, on_obp_readable-obp_send_dmrd,
}
use cc2obp.Translate.{
  from_cc, CallState, Env, Slot, send_bon, send_dmrd, zero_call, with_call, with_has_call,
  with_logged,
}
use cc2obp.Translate.Burst.{build_head_term_payload}
use cc2obp.Translate.Frames.{dmrd_body-fields}
use cc2obp.Translate.Handlers.{obp_gate_open, dmrd_body, send_dmrd_frame, send_obp_voice_head}
use cc2obp.Translate.Header.{length-payload}
use cc2obp.Translate.Incoming.{
  call_lc, is_dropped, start_cc_call, translator_cccc_bon, link_dmrd_received,
}
use cc2obp.Translate.Relay.{frame_sent, received_head}

-- The call that a B-on begins.
abbrev cc_call_of : Env → ℕ → ℕ → ℕ → CallState
cc_call_of e i radio_id peer_id = record zero_call {
  origin = from_cc;
  rf_src = radio_id;
  cc_peer_id = peer_id;
  stream_id = take 4 e.random;
  lc = call_lc (link_at e.cfg i).tgid radio_id;
  emb = encode_emblc (call_lc (link_at e.cfg i).tgid radio_id);
  call_start_time = e.now;
  last_activity = e.now;
}

-- The slot of a link that a B-on finds idle, with the call that begins.
abbrev begun : Env → ℕ → ℕ → ℕ → Slot → Slot
begun e i radio_id peer_id s =
    with_has_call (with_call (with_logged s false) (cc_call_of e i radio_id peer_id)) true

-- The voice header of that call.
abbrev head_body : Env → ℕ → ℕ → ℕ → ℕ → Slot → List ℕ
head_body e i p radio_id peer_id s =
    dmrd_body e i (begun e i radio_id peer_id s) p 0x21
      (build_head_term_payload (call_lc (link_at e.cfg i).tgid radio_id) false)

-- The sender's link `i` has peer `p` and an open gate, and that peer is bound. The receiver's link `j`
-- has an open gate too, and its peer `idx` shares the passphrase.
module _ (e f : Env) (i j p idx : ℕ) (peer : (link_at e.cfg i).openbridge_idx ≡ some p)
    (on : (link_at e.cfg i).enabled ≡ true) (open_e : obp_gate_open e i ≡ true)
    (on_f : (link_at f.cfg j).enabled ≡ true) (open_f : obp_gate_open f j ≡ true)
    (in_table : p < length e.cfg.openbridge) (up : e.ob.bound p ≡ true)
    (shared : (peer_at e.cfg p).passphrase ≡ (peer_at f.cfg idx).passphrase) where
  bon_sent :
      (s : Slot) (radio_id peer_id : ℕ)
      → s.lr.has_call ≡ false
      → (translator_cccc_bon e i radio_id peer_id s).1
        ≡ send_dmrd i p (head_body e i p radio_id peer_id s) ∷ []
  unfolding translator_cccc_bon start_cc_call send_obp_voice_head send_dmrd_frame
  bon_sent s radio_id peer_id idle =
      rw (on, open_e, idle)
        (frame_sent e f i j p peer on open_e on_f open_f (begun e i radio_id peer_id s) 0x21
          (build_head_term_payload (call_lc (link_at e.cfg i).tgid radio_id) false))

  -- A B-on at the sender's idle link becomes one DMRD frame. obp_send_dmrd signs it for the peer, and
  -- if the datagram comes from the address that the receiver has for its own peer, on_obp_readable
  -- lets it pass, and it becomes a B-on at the receiver's idle link: with the radio of the first
  -- B-on, with the source peer of the first B-on if the sender's peer preserves it and else with the
  -- network id that the sender has for the peer, each in its field's width, and with the receiver's
  -- own lid and talkgroup. Both links are enabled with open gates, the sender's peer is in the table and
  -- bound, the receiver's peer shares its passphrase, and four random bytes are drawn.
  pub relay_bon :
      (s t : Slot) (radio_id peer_id : ℕ)
      → length e.random ≡ 4
      → s.lr.has_call ≡ false
      → t.lr.has_call ≡ false
      → (body : List ℕ) × (dg : Datagram) × (heard : List ℕ) × ((translator_cccc_bon e i radio_id
            peer_id s).1
          ≡ send_dmrd i p body ∷ [])
        × (obp_send_dmrd e.cfg e.ob p body ≡ some dg)
        × (on_obp_readable f.cfg idx
              (record dg { ip = (peer_at f.cfg idx).peer_ip; port = (peer_at f.cfg idx).peer_port })
            ≡ some heard)
        × (is_dropped (get_or heard flags_off 0) ≡ false)
        × ((link_dmrd_received f j heard t).1
            ≡ send_bon j
                (radio_id % 16777216)
                (carried_peer (peer_at e.cfg p) (peer_id % 4294967296))
                (link_at f.cfg j).cc_lid
                (link_at f.cfg j).tgid
              ∷ [])
  unfolding is_dropped
  relay_bon s t radio_id peer_id four idle_s idle_t =
      let (size, tag, _, src, _, netid, flags, _, _) =
        dmrd_body-fields e i (begun e i radio_id peer_id s) p 0x21
          (build_head_term_payload (call_lc (link_at e.cfg i).tgid radio_id) false)
          (ap length (take-all 4 e.random four) ∙ four)
          (length-payload (call_lc (link_at e.cfg i).tgid radio_id) false) in
      let (_, _, flags', src', netid') = own_body-fields (peer_at e.cfg p) body size in
      let (dg, sent, passed) =
        on_obp_readable-obp_send_dmrd e.cfg f.cfg e.ob p idx body in_table up shared size tag
          (ap (λ v. bit_and v flag_slot2) flags) in
      (
        body,
        dg,
        own_body (peer_at e.cfg p) body,
        bon_sent s radio_id peer_id idle_s,
        sent,
        passed,
        ap is_dropped (flags' ∙ flags),
        received_head e f i j p peer on open_e on_f open_f _ t (flags' ∙ flags) idle_t
            ∙ ap₂ (λ r q. send_bon j r q (link_at f.cfg j).cc_lid (link_at f.cfg j).tgid ∷ [])
                (src' ∙ src) (netid' ∙ ap (carried_peer (peer_at e.cfg p)) netid),
      )
    where
      body : List ℕ
      body = head_body e i p radio_id peer_id s
