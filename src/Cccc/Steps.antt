-- ===== src/Cccc/Steps.antt =====
-- cccc/cccc_link.c: one event after another, as the event loop, translate.c and main.c bring them.
use cc2obp.Common.{ℕ, Bool, true, false, ◌&&◌, List, [], ◌∷◌, ◌++◌, ltb, if◌then◌else◌}
use cc2obp.Cccc.Const.{max_pending}
use cc2obp.Cccc.Link.{
  Env, Action, LinkState, lst_connecting, lst_handshaking, lst_up, lst_down, cccc_send_boff,
  cccc_send_voice, keepalive_cb,
}
use cc2obp.Cccc.Connect.{Recv, on_link_tcp_readable, reconnect_cb}
use cc2obp.Cccc.Mux.{CcMux, on_link}
use cc2obp.Cccc.Pending.{n_link, on_pending_readable, pending_timeout_cb, on_listen_readable}
use cc2obp.Cccc.Traffic.{
  is_some, on_voice_readable, on_trial_readable, on_connect_writable, cccc_mux_reconcile,
  cccc_mux_stop, counted_send_bon,
}

abbrev pub is_connecting : LinkState → Bool
is_connecting lst_connecting = true
is_connecting _ = false

-- The handshake has begun: the link holds a sync source, and its connection is read.
abbrev pub is_bound : LinkState → Bool
is_bound lst_handshaking = true
is_bound lst_up = true
is_bound lst_down = false
is_bound lst_connecting = false

-- What the event loop calls back, then what translate.c and main.c call.
pub data Input : Type 0 where
  connections : (accepted : List (ℕ × List ℕ)) → Input
  pending_readable : (k : ℕ) (time_of_day : List ℕ) (r : Recv) → Input
  pending_due : (k : ℕ) → Input
  link_readable : (i : ℕ) (r : Recv) → Input
  connect_writable : (i : ℕ) (ok : Bool) (draws : List ℕ) → Input
  reconnect_due keepalive_due : (i : ℕ) → Input
  voice_datagram trial_datagram : (buf src_ip : List ℕ) (src_port : ℕ) → Input
  call_bon : (i radio_id peer_id src_lid tgid call_type : ℕ) → Input
  call_boff : (i lost total rssi : ℕ) → Input
  call_voice : (i seq timestamp : ℕ) (marker : Bool) (ambe21 : List ℕ) → Input
  reconcile stop : Input

-- The event loop calls back only for a timer that is set and for a descriptor that it watches.
unfoldable pub is_expected : Env → CcMux → Input → Bool
is_expected e mx (connections _) = is_some mx.listen_fd
is_expected e mx (pending_readable k _ _) = ltb k max_pending && (mx.pending k).in_use
is_expected e mx (pending_due k) = ltb k max_pending && is_some (mx.pending k).timeout_timer
is_expected e mx (link_readable i _) = ltb i (n_link e) && is_bound (mx.links i).state
is_expected e mx (connect_writable i _ _) = ltb i (n_link e) && is_connecting (mx.links i).state
is_expected e mx (reconnect_due i) = ltb i (n_link e) && is_some (mx.links i).reconnect_timer
is_expected e mx (keepalive_due i) = ltb i (n_link e) && is_some (mx.links i).keepalive_timer
is_expected e mx (voice_datagram _ _ _) = is_some mx.voice_fd
is_expected e mx (trial_datagram _ _ _) = is_some mx.trial_fd
is_expected e mx (call_bon i _ _ _ _ _) = ltb i (n_link e)
is_expected e mx (call_boff i _ _ _) = ltb i (n_link e)
is_expected e mx (call_voice i _ _ _ _) = ltb i (n_link e)
is_expected e mx reconcile = true
is_expected e mx stop = true

unfoldable pub react : Env → Input → CcMux → CcMux × List Action
unfolding on_listen_readable on_pending_readable pending_timeout_cb on_link_tcp_readable
    on_connect_writable reconnect_cb keepalive_cb on_voice_readable on_trial_readable
    counted_send_bon cccc_send_boff cccc_send_voice cccc_mux_reconcile cccc_mux_stop
react e (connections accepted) mx = on_listen_readable e accepted mx
react e (pending_readable k time_of_day r) mx = on_pending_readable e time_of_day k r mx
react e (pending_due k) mx = pending_timeout_cb e k mx
react e (link_readable i r) mx = on_link i (on_link_tcp_readable e i r) mx
react e (connect_writable i ok draws) mx = on_connect_writable e i ok draws mx
react e (reconnect_due i) mx = on_link i (reconnect_cb e i) mx
react e (keepalive_due i) mx = on_link i (keepalive_cb e i) mx
react e (voice_datagram buf src_ip src_port) mx = on_voice_readable e buf src_ip src_port mx
react e (trial_datagram buf src_ip src_port) mx = on_trial_readable e buf src_ip src_port mx
react e (call_bon i radio_id peer_id src_lid tgid call_type) mx =
    counted_send_bon e i radio_id peer_id src_lid tgid call_type mx
react e (call_boff i lost total rssi) mx = on_link i (cccc_send_boff e i lost total rssi) mx
react e (call_voice i seq timestamp marker ambe21) mx =
    on_link i (cccc_send_voice e i seq timestamp marker ambe21) mx
react e reconcile mx = cccc_mux_reconcile e mx
react e stop mx = cccc_mux_stop e mx

unfoldable pub step : Env → Input → CcMux → CcMux × List Action
unfolding is_expected react
step e input mx = if is_expected e mx input then react e input mx else (mx, [])

unfoldable pub run : List (Env × Input) → CcMux → CcMux × List Action
unfolding step
run [] mx = (mx, [])
run ((e, input) ∷ rest) mx =
    let r = step e input mx in let later = run rest r.0 in (later.0, r.1 ++ later.1)
