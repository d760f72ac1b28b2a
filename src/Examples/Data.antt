-- ===== src/Examples/Data.antt =====
-- A configuration with two links to one peer, and a run of it.
use cc2obp.Common.{
  ℕ, zero, suc, ◌<◌, ◌≡◌, refl, Bool, true, false, ◌&&◌, some, List, [], ◌∷◌, arith, ltb, replicate,
  All,
}
use cc2obp.Config.{Config, LinkConfig, no_link, no_peer}
use cc2obp.Dmr.Bits.{IsByte}
use cc2obp.Dmr.Emblc.{encode_emblc}
use cc2obp.Translate.Incoming.{call_lc}
use cc2obp.Openbridge.Mux.{ObpMux}
use cc2obp.Translate.Protocol.{IsReady}
use cc2obp.Translate.Phases.{IsResolved}
use cc2obp.Translate.Links.Runs.{IsSizedEvent}
use cc2obp.Translate.Steps.{Event, link_up, link_down, bon, boff, voice, dmrd, tick}
use cc2obp.Translate.{Env, from_cc, from_obp, Slot, zero_call}

abbrev pub link_a : LinkConfig
link_a = record no_link {
  enabled = true;
  cross_connect_active = true;
  tgid = 3100;
  openbridge_idx = some 0;
  cc_lid = 7;
}

abbrev pub link_b : LinkConfig
link_b = record link_a { tgid = 3101; cc_lid = 8 }

abbrev pub two_links : Config
two_links = record {
  cc_site_name = [];
  cc_mac_address = [];
  cc_code_revision = [];
  cc_version = [];
  cc_os_version = [];
  cc_keepalive_interval = 10;
  cc_link_timeout = 30;
  openbridge = no_peer ∷ [];
  link = link_a ∷ link_b ∷ [];
}

abbrev pub all_up : ObpMux
all_up = record { bound = λ _. true; active = λ _. true }

abbrev pub all_down : ObpMux
all_down = record { bound = λ _. false; active = λ _. false }

abbrev pub env_at : ℕ → Env
env_at t = record { cfg = two_links; ob = all_up; now = t; random = 17 ∷ 34 ∷ 51 ∷ 68 ∷ [] }

abbrev are_bytes : List ℕ → Bool
are_bytes [] = true
are_bytes (v ∷ vs) = ltb v 256 && are_bytes vs

pub are_bytes-All : (vs : List ℕ) → are_bytes vs ≡ true → All IsByte vs
are_bytes-All [] h = tt
are_bytes-All (v ∷ vs) h = (ground arith, are_bytes-All vs (ground arith))

-- A voice payload: the last byte of each unit is 0 or 0x80.
abbrev pub speech : List ℕ
speech =
    1 ∷ 2 ∷ 3 ∷ 4 ∷ 5 ∷ 6 ∷ 128 ∷ 250 ∷ 251 ∷ 252 ∷ 253 ∷ 254 ∷ 255 ∷ 0 ∷ 9 ∷ 8 ∷ 7 ∷ 6 ∷ 5 ∷ 4
    ∷ 128 ∷ []

pub speech-IsBytes : All IsByte speech
speech-IsBytes = are_bytes-All speech refl

-- "DMRD", then sequence 0, source 5, talkgroup 3101, peer 9, the flags, stream 1 2 3 4, the burst.
abbrev pub frame : ℕ → List ℕ
frame flags =
    68
    ∷ 77
    ∷ 82
    ∷ 68
    ∷ 0
    ∷ 0
    ∷ 0
    ∷ 5
    ∷ 0
    ∷ 12
    ∷ 29
    ∷ 0
    ∷ 0
    ∷ 0
    ∷ 9
    ∷ flags
    ∷ 1
    ∷ 2
    ∷ 3
    ∷ 4
    ∷ replicate 33 90

-- A call from CC-CC on the first link, a call from OpenBridge on the second, and the timer.
abbrev pub some_calls : List (Env × Event)
some_calls =
    (env_at 0, link_up 0)
    ∷ (env_at 1, bon 0 5 9)
    ∷ (env_at 2, dmrd 0 (frame 0x21))
    ∷ (env_at 3, voice 0 speech)
    ∷ (env_at 60000003, dmrd 0 (frame 0x10))
    ∷ (env_at 60000004, voice 0 speech)
    ∷ (env_at 60000005, boff 0)
    ∷ (env_at 120000003, dmrd 0 (frame 0x22))
    ∷ (env_at 6000000000, tick)
    ∷ (env_at 6000000001, link_down 1)
    ∷ []

pub resolved : (t i : ℕ) → i < 2 → IsResolved (env_at t) i
resolved t zero h = (0, refl)
resolved t (suc zero) h = (0, refl)
resolved t (suc (suc i)) h = absurd (omega arith)

pub some_calls-IsReady : All IsReady some_calls
some_calls-IsReady = (
  (resolved 0, omega arith),
  (
    (resolved 1, omega arith),
    (
      (resolved 2, tt),
      (
        (resolved 3, omega arith),
        (
          (resolved 60000003, tt),
          (
            (resolved 60000004, omega arith),
            (
              (resolved 60000005, omega arith),
              (
                (resolved 120000003, tt),
                ((resolved 6000000000, tt), ((resolved 6000000001, omega arith), tt)),
              ),
            ),
          ),
        ),
      ),
    ),
  ),
)

pub some_calls-IsSizedEvent : All IsSizedEvent some_calls
some_calls-IsSizedEvent = (
  refl,
  (
    refl,
    ((refl, refl), (refl, ((refl, refl), (refl, (refl, ((refl, refl), (refl, (refl, tt)))))))),
  ),
)

abbrev pub idle_slot : Slot
idle_slot = record {
  lr = record { has_call = false; call = zero_call; cx_drop_logged = false };
  ctr = λ _. 0;
}

-- A call from CC-CC, and one from OpenBridge with the stream 1 2 3 4.
abbrev pub cc_slot : Slot
cc_slot = record idle_slot {
  lr = record idle_slot.lr {
    has_call = true;
    call = record zero_call {
      origin = from_cc;
      stream_id = 1 ∷ 2 ∷ 3 ∷ 4 ∷ [];
      rf_src = 5;
      lc = call_lc 3100 5;
      emb = encode_emblc (call_lc 3100 5);
      obp_seq_pos = 8;
    };
  };
}

abbrev pub obp_slot : Slot
obp_slot = record idle_slot {
  lr = record idle_slot.lr {
    has_call = true;
    call = record zero_call {
      origin = from_obp;
      stream_id = 1 ∷ 2 ∷ 3 ∷ 4 ∷ [];
      cc_sent_first = true;
      cc_seq = 4;
    };
  };
}
