-- ===== src/Cccc/Link.antt =====
-- cccc/cccc_link.c: one link and its connection. A handler gets the link and gives it back with
-- what it does to the rest of the program and to the system.
use cc2obp.Common.{
  ℕ, ◌+◌, ◌-◌, ◌*◌, Bool, true, false, not, ◌&&◌, ◌||◌, Option, none, some, List, [], ◌∷◌, ◌++◌,
  ltb, ◌==◌, if◌then◌else◌, length, get_or, take,
}
use cc2obp.Wire.{wr32, wr16}
use cc2obp.Config.{Config, LinkConfig, outbound, inbound, link_at}
use cc2obp.Cccc.Const.{
  codes, rtp_vpxcc, rtp_pt_voice, rtp_marker_bit, rtp_pt_keepalive, keepalive_payload,
  answer_nfields, codec_ambe, ms_per_frame, reconnect_delay, rxbuf_cap,
}
use cc2obp.Cccc.Text.{atoi, strstr}
use cc2obp.Cccc.Lines.{feed_bytes}
use cc2obp.Cccc.Signals.{build_bon, build_boff, Bon, parse_bon, parse_boff}
use cc2obp.Wire.{same_bytes}

pub data LinkState : Type 0 where
  lst_down lst_connecting lst_handshaking lst_up : LinkState

abbrev pub is_up : LinkState → Bool
is_up lst_up = true
is_up _ = false

abbrev pub is_down : LinkState → Bool
is_down lst_down = true
is_down _ = false

-- A timer is the time it is due. The lengths of `rxbuf` and of `hslines` are `rxlen` and `hsnlines`.
pub record CcLink : Type 0 where
  pub state : LinkState
  pub active : Bool
  pub fd : Option ℕ
  pub reconnect_timer : Option ℕ
  pub keepalive_timer : Option ℕ
  pub sync_source : ℕ
  pub has_sync_source : Bool
  pub last_keepalive_recv : ℕ
  pub rxbuf : List ℕ
  pub hslines : List (List ℕ)

-- The calls into the system, and those into translate.c, which is told by `tr_` actions. A write
-- to no descriptor is a write to -1.
pub data Action : Type 0 where
  tcp_send : (fd : Option ℕ) (bytes : List ℕ) → Action
  udp_sendto : (ip : List ℕ) (port : ℕ) (bytes : List ℕ) → Action
  close_fd : (fd : ℕ) → Action
  tr_link_up tr_link_down : (i : ℕ) → Action
  tr_bon : (i : ℕ) (bon : Bon) → Action
  tr_boff : (i lost total : ℕ) → Action
  tr_voice : (i seq timestamp : ℕ) (marker : Bool) (ambe21 : List ℕ) → Action

-- The configuration, the time, and the descriptor that the system gives to a connection that
-- `tcp_connect_start` opens for a link, if it does.
pub record Env : Type 0 where
  pub cfg : Config
  pub now : ℕ
  pub connect : ℕ → Option ℕ

-- The two settings are in seconds.
abbrev pub keepalive_interval : Config → ℕ
keepalive_interval cfg = cfg.cc_keepalive_interval * 1000000000

abbrev pub link_timeout : Config → ℕ
link_timeout cfg = cfg.cc_link_timeout * 1000000000

abbrev pub Handler : Type 0
Handler = CcLink → CcLink × List Action

infixl 5 ◌then_do◌
abbrev pub ◌then_do◌ : CcLink × List Action → Handler → CcLink × List Action
(lk, acts) then_do h = let (lk', more) = h lk in (lk', acts ++ more)

abbrev pub silent : Handler
silent lk = (lk, [])

abbrev pub is_outbound : LinkConfig → Bool
is_outbound l = elim l.cc_role [ outbound ↦ true | inbound ↦ false ]

-- A link as `cccc_mux_new` makes it.
abbrev pub new_link : CcLink
new_link = record {
  state = lst_down;
  active = false;
  fd = none;
  reconnect_timer = none;
  keepalive_timer = none;
  sync_source = 0;
  has_sync_source = false;
  last_keepalive_recv = 0;
  rxbuf = [];
  hslines = [];
}

unfoldable pub build_keepalive : ℕ → List ℕ
unfolding wr16 wr32
build_keepalive ssrc =
    rtp_vpxcc ∷ rtp_pt_keepalive ∷ (wr16 0 ++ (wr32 0 ++ (wr32 ssrc ++ wr32 keepalive_payload)))

-- The type of a voice packet is 94, with the top bit set at the start of a call.
unfoldable pub build_voice : ℕ → ℕ → Bool → ℕ → List ℕ → List ℕ
unfolding wr16 wr32
build_voice seq timestamp marker ssrc ambe21 =
    rtp_vpxcc
    ∷ (rtp_pt_voice + (if marker then rtp_marker_bit else 0))
    ∷ (wr16 seq ++ (wr32 timestamp ++ (wr32 ssrc ++ ambe21)))

abbrev pub closes : Option ℕ → List Action
closes none = []
closes (some fd) = close_fd fd ∷ []

module _ (e : Env) (i : ℕ) where
  abbrev pub lcfg : LinkConfig
  lcfg = link_at e.cfg i

  unfoldable pub udp_send_to_link : List ℕ → Action
  udp_send_to_link bytes = udp_sendto lcfg.cc_remote_ip lcfg.cc_remote_voice_port bytes

  -- `user` is the counter of the link, already moved on.
  unfoldable pub cccc_send_bon : ℕ → ℕ → ℕ → ℕ → ℕ → ℕ → Handler
  unfolding build_bon
  cccc_send_bon user radio_id peer_id src_lid tgid call_type lk =
      if is_up lk.state
      then (
        lk,
        tcp_send lk.fd (build_bon lcfg.cc_lid user radio_id peer_id src_lid tgid call_type) ∷ [],
      )
      else (lk, [])

  unfoldable pub cccc_send_boff : ℕ → ℕ → ℕ → Handler
  unfolding build_boff
  cccc_send_boff lost total rssi lk =
      if is_up lk.state
      then (lk, tcp_send lk.fd (build_boff lcfg.cc_lid lost total rssi) ∷ [])
      else (lk, [])

  unfoldable pub cccc_send_voice : ℕ → ℕ → Bool → List ℕ → Handler
  unfolding build_voice udp_send_to_link
  cccc_send_voice seq timestamp marker ambe21 lk =
      if is_up lk.state
      then (lk, udp_send_to_link (build_voice seq timestamp marker lk.sync_source ambe21) ∷ [])
      else (lk, [])

  unfoldable pub schedule_reconnect : Handler
  schedule_reconnect lk = (record lk { reconnect_timer = some (e.now + reconnect_delay) }, [])

  unfoldable pub teardown_link_connection : Handler
  unfolding schedule_reconnect
  teardown_link_connection lk =
      let reset = record lk {
        keepalive_timer = none;
        fd = none;
        state = lst_down;
        has_sync_source = false;
        rxbuf = [];
        hslines = [];
      } in
      let told = if is_up lk.state then tr_link_down i ∷ [] else [] in
      (reset, closes lk.fd ++ told)
      then_do (if is_outbound lcfg && lk.active then schedule_reconnect else silent)

  unfoldable pub arm_keepalive : Handler
  arm_keepalive lk = (
    record lk {
      last_keepalive_recv = e.now;
      keepalive_timer = some (e.now + keepalive_interval e.cfg);
    },
    [],
  )

  -- The keepalive timer of the link is due.
  unfoldable pub keepalive_cb : Handler
  unfolding teardown_link_connection udp_send_to_link build_keepalive
  keepalive_cb lk0 =
      let lk = record lk0 { keepalive_timer = none } in
      if is_up lk.state
      then (lk, udp_send_to_link (build_keepalive lk.sync_source) ∷ [])
        then_do (if ltb (link_timeout e.cfg) (e.now - lk.last_keepalive_recv)
            then teardown_link_connection
            else λ l. (record l { keepalive_timer = some (e.now + keepalive_interval e.cfg) }, []))
      else (lk, [])

  unfoldable pub finish_outbound_handshake : Handler
  unfolding teardown_link_connection arm_keepalive
  finish_outbound_handshake lk0 =
      let codec = get_or lk0.hslines 0 [] in
      let ms = atoi (get_or lk0.hslines 1 []) in
      let lk = record lk0 { hslines = [] } in
      if not (same_bytes codec codec_ambe) || not (ms == ms_per_frame)
      then teardown_link_connection lk
      else (record lk { state = lst_up }, []) then_do arm_keepalive then_do λ l.
          (l, tr_link_up i ∷ [])

  unfoldable pub dispatch_established_line : List ℕ → Handler
  dispatch_established_line line lk = elim (strstr (codes "Bee=") line) [
    | some _ ↦ elim (parse_bon line) [ none ↦ (lk, []) | some bon ↦ (lk, tr_bon i bon ∷ []) ]
    | none ↦ elim (strstr (codes "LOSS=") line) [
      | none ↦ (lk, [])
      | some _ ↦ elim (parse_boff line) [
        | none ↦ (lk, [])
        | some (lost, total) ↦ (lk, tr_boff i lost total ∷ [])
      ]
    ]
  ]

  -- A field of the Answer is kept up to 255 bytes.
  unfoldable pub link_on_line : List ℕ → Handler
  unfolding finish_outbound_handshake dispatch_established_line
  link_on_line line lk = elim lk.state [
    | lst_handshaking ↦
        let lk' = record lk {
          hslines =
              if ltb (length lk.hslines) answer_nfields
              then lk.hslines ++ take 255 line ∷ []
              else lk.hslines;
        } in
        if length lk'.hslines == answer_nfields then finish_outbound_handshake lk' else (lk', [])
    | lst_up ↦ dispatch_established_line line lk
    | lst_down ↦ (lk, [])
    | lst_connecting ↦ (lk, [])
  ]

  unfoldable pub feed_link : List ℕ → Handler
  unfolding feed_bytes link_on_line
  feed_link bytes lk =
      let (rx, (lk', acts)) =
        feed_bytes rxbuf_cap (λ line st. st then_do link_on_line line) bytes (lk.rxbuf, (lk, [])) in
      (record lk' { rxbuf = rx }, acts)
