-- ===== src/Translate.antt =====
-- translate.c: the link table, the state of each call, and what the translator sends.
-- `ev_now` is an argument, in nanoseconds of the monotonic clock, and so is what `rand4` yields.
pub mod Burst
pub mod Handlers
pub mod Incoming
pub mod Steps
pub mod Phases
pub mod Protocol
pub mod Frames
pub mod Counters
pub mod Voice
pub mod Header
pub mod Links
pub mod Clock
pub mod Routing
pub mod Calls
pub mod Gate
pub mod Relay
use cc2obp.Common.{ℕ, Bool, true, false, ◌&&◌, List, [], ◌++◌, ◌==◌, if◌then◌else◌, replicate}
use cc2obp.Config.{Config, LinkConfig, link_at}
use cc2obp.Openbridge.Mux.{ObpMux, obp_peer_is_enabled}

-- `call_origin_t`.
pub data CallOrigin : Type 0 where
  no_origin from_cc from_obp : CallOrigin

-- `call_state`.
pub record CallState : Type 0 where
  pub origin : CallOrigin
  pub rf_src : ℕ
  pub peer_id : ℕ
  pub cc_peer_id : ℕ
  pub stream_id : List ℕ
  pub lc : List ℕ
  pub emb : List (List ℕ)
  pub call_start_time : ℕ
  pub last_activity : ℕ
  pub cc_sent_first : Bool
  pub cc_seq : ℕ
  pub obp_seq_pos : ℕ

-- `link_runtime`.
pub record LinkRuntime : Type 0 where
  pub has_call : Bool
  pub call : CallState
  pub cx_drop_logged : Bool

-- `struct translator`: the pointers in it are in `Env`. The counter of frames sent is not wrapped
-- here: its low byte is what goes out.
pub record Translator : Type 0 where
  pub link : ℕ → LinkRuntime
  pub obp_seq_ctr : ℕ → ℕ

-- What a handler reads and does not write.
pub record Env : Type 0 where
  pub cfg : Config
  pub ob : ObpMux
  pub now : ℕ
  pub random : List ℕ

-- The part of the translator that a handler for one link reads and writes.
pub record Slot : Type 0 where
  pub lr : LinkRuntime
  pub ctr : ℕ → ℕ

-- What goes out, with the link that it is for. `send_bon` and the two after it are the calls of
-- cccc_link.c, `send_dmrd` is the call of obp_link.c, and `log_drop` is the warning of a closed gate.
pub data Action : Type 0 where
  send_bon : (link radio_id peer_id src_lid tgid : ℕ) → Action
  send_boff : (link lost total : ℕ) → Action
  send_voice : (link seq timestamp : ℕ) (marker : Bool) (ambe21 : List ℕ) → Action
  send_dmrd : (link peer : ℕ) (body : List ℕ) → Action
  log_drop : (link : ℕ) (peer_ok : Bool) → Action

abbrev pub Handler : Type 0
Handler = Slot → Slot × List Action

abbrev pub zero_call : CallState
zero_call = record {
  origin = no_origin;
  rf_src = 0;
  peer_id = 0;
  cc_peer_id = 0;
  stream_id = replicate 4 0;
  lc = replicate 9 0;
  emb = replicate 4 (replicate 4 0);
  call_start_time = 0;
  last_activity = 0;
  cc_sent_first = false;
  cc_seq = 0;
  obp_seq_pos = 0;
}

abbrev pub is_cc : CallOrigin → Bool
is_cc from_cc = true
is_cc _ = false

abbrev pub is_obp : CallOrigin → Bool
is_obp from_obp = true
is_obp _ = false

-- `lr->has_call && lr->call.origin == ...`.
abbrev pub in_cc_call : Slot → Bool
in_cc_call s = s.lr.has_call && is_cc s.lr.call.origin

abbrev pub in_obp_call : Slot → Bool
in_obp_call s = s.lr.has_call && is_obp s.lr.call.origin

abbrev pub with_call : Slot → CallState → Slot
with_call s c = record s { lr = record s.lr { call = c } }

abbrev pub with_has_call : Slot → Bool → Slot
with_has_call s b = record s { lr = record s.lr { has_call = b } }

abbrev pub with_logged : Slot → Bool → Slot
with_logged s b = record s { lr = record s.lr { cx_drop_logged = b } }

abbrev pub update {ℓ} : {A : Type ℓ} → (ℕ → A) → ℕ → A → ℕ → A
update f i v j = if j == i then v else f j

-- The calls after it see the state that the first leaves, and their actions come later.
infixl 20 ◌then_do◌
abbrev pub ◌then_do◌ : Slot × List Action → Handler → Slot × List Action
r then_do h = ((h r.0).0, r.1 ++ (h r.0).1)

abbrev pub silent : Handler
silent s = (s, [])
