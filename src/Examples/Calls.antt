-- ===== src/Examples/Calls.antt =====
-- Calls on the two links of `two_links`.
use cc2obp.Common.{
  arith, ℕ, ◌*◌, ◌%◌, ◌≡◌, refl, inl, inr, true, false, some, List, [], ◌∷◌, length, get_or, take,
  drop, replicate, All,
}
use cc2obp.Wire.{rd24, rd32}
use cc2obp.Openbridge.Const.{
  dmrd_tag, src_off, dst_off, netid_off, flags_off, stream_off, payload_off,
}
use cc2obp.Translate.Handlers.{obp_gate_open, dmrd_body, slot_index}
use cc2obp.Wire.{same_bytes}
use cc2obp.Translate.Incoming.{
  is_head, is_dropped, translator_cccc_bon, translator_cccc_voice, translator_cccc_boff,
  link_dmrd_received,
}
use cc2obp.Translate.Steps.{translator_obp_dmrd_received, translator_tick, translator_new, run}
use cc2obp.Translate.{
  Translator, Env, Slot, with_logged, send_bon, send_boff, send_voice, send_dmrd, log_drop,
}
use cc2obp.Translate.Phases.{idle, phase}
use cc2obp.Translate.Protocol.{trace, watch}
use cc2obp.Translate.Protocol.Runs.{run_protocol}
use cc2obp.Translate.Counters.Runs.{numbers, counting, run-numbers}
use cc2obp.Translate.Links.{IsWellFormed, IsSized}
use cc2obp.Translate.Links.Runs.{run-IsWellFormed}
use cc2obp.Translate.Calls.{Undisturbed, SameCall, bon_contention, dmrd_contention}
use cc2obp.Translate.Gate.{receive_all, gate_logs_once}
use cc2obp.Translate.Clock.{Timed, translator_tick-ends}
use cc2obp.Translate.Routing.{IsRouted, translator_obp_dmrd_received-IsRouted}
use cc2obp.Translate.Frames.{dmrd_body-fields}
use cc2obp.Translate.Relay.{relay_voice, relay_boff}
use cc2obp.Config.{no_peer}
use cc2obp.Translate.Relay.Bon.{relay_bon}
use cc2obp.Openbridge.Datagrams.{Datagram, obp_send_dmrd, on_obp_readable}
use cc2obp.Openbridge.Mux.{obp_peer_is_enabled}
use cc2obp.Examples.Data.{
  two_links, all_up, all_down, env_at, speech, frame, speech-IsBytes, some_calls,
  some_calls-IsReady, some_calls-IsSizedEvent, idle_slot, cc_slot, obp_slot,
}

run_protocol_example :
    watch 0 idle (trace some_calls translator_new)
    ≡ some (phase ((run some_calls translator_new).0.link 0))
run_protocol_example = run_protocol 0 some_calls some_calls-IsReady

run-numbers_example :
    (numbers 0 (run some_calls translator_new).1
      ≡ counting 0 (length (numbers 0 (run some_calls translator_new).1)))
    × ((run some_calls translator_new).0.obp_seq_ctr 0
        ≡ length (numbers 0 (run some_calls translator_new).1))
run-numbers_example = run-numbers 0 some_calls

run-IsWellFormed_example :
    IsWellFormed ((run some_calls translator_new).0.link 0)
    × All IsSized (run some_calls translator_new).1
run-IsWellFormed_example = run-IsWellFormed 0 some_calls some_calls-IsSizedEvent

bon_contention_example : Undisturbed obp_slot (translator_cccc_bon (env_at 5) 0 77 78 obp_slot)
bon_contention_example = bon_contention (env_at 5) 0 obp_slot 77 78 refl

-- A voice header while a call from CC-CC is up.
dmrd_contention_example : Undisturbed cc_slot (link_dmrd_received (env_at 5) 1 (frame 0x21) cc_slot)
unfolding is_head
dmrd_contention_example = dmrd_contention (env_at 5) 1 cc_slot (frame 0x21) refl

abbrev down_at : ℕ → Env
down_at t = record (env_at t) { ob = all_down }

-- The attempt before has had its line.
abbrev logged_slot : Slot
logged_slot = with_logged idle_slot true

gate_logs_once_example :
    ((receive_all (down_at 5) 1 (frame 0x21 ∷ frame 1 ∷ frame 2 ∷ []) logged_slot).1
      ≡ log_drop 1 false ∷ [])
    × ((receive_all
          (down_at 5)
          1
          (frame 0x21 ∷ frame 1 ∷ frame 2 ∷ [])
          logged_slot).0.lr.cx_drop_logged
        ≡ true)
    × SameCall logged_slot
        (receive_all (down_at 5) 1 (frame 0x21 ∷ frame 1 ∷ frame 2 ∷ []) logged_slot).0
unfolding is_head obp_peer_is_enabled
gate_logs_once_example =
    gate_logs_once (down_at 5) 1 (inr (inr (0, refl, inr refl))) refl logged_slot (frame 0x21)
      (frame 1 ∷ frame 2 ∷ []) (refl, (refl, tt))

abbrev busy : Translator
busy = record { link = λ _. obp_slot.lr; obp_seq_ctr = λ _. 0 }

translator_tick-ends_example :
    Timed (env_at 6000000000) obp_slot.lr ((translator_tick (env_at 6000000000) busy).0.link 1)
translator_tick-ends_example =
    translator_tick-ends (env_at 6000000000) busy 1 (refl, inr (inl refl)) (omega arith)

translator_obp_dmrd_received-IsRouted_example :
    IsRouted
      (env_at 5)
      0
      (frame 0x21)
      0
      translator_new
      (translator_obp_dmrd_received (env_at 5) 0 (frame 0x21) translator_new)
translator_obp_dmrd_received-IsRouted_example =
    translator_obp_dmrd_received-IsRouted (env_at 5) 0 (frame 0x21) 0 translator_new (omega arith)

dmrd_body-fields_example :
    let body = dmrd_body (env_at 0) 0 cc_slot 0 0x10 (replicate 33 7) in
    (length body ≡ 53)
    × (take 4 body ≡ dmrd_tag)
    × (get_or body 4 0 ≡ 0)
    × (rd24 (drop src_off body) ≡ 5)
    × (rd24 (drop dst_off body) ≡ 3100)
    × (rd32 (drop netid_off body) ≡ 0)
    × (get_or body flags_off 0 ≡ 0x10)
    × (take 4 (drop stream_off body) ≡ 1 ∷ 2 ∷ 3 ∷ 4 ∷ [])
    × (take 33 (drop payload_off body) ≡ replicate 33 7)
dmrd_body-fields_example = dmrd_body-fields (env_at 0) 0 cc_slot 0 0x10 (replicate 33 7) refl refl

-- The peer has a network id, and does not preserve the source peer.
abbrev known_at : ℕ → Env
known_at t = record (env_at t) {
  cfg = record two_links { openbridge = record no_peer { network_id = 312000 } ∷ [] };
}

relay_bon_example :
    (body : List ℕ) × (dg : Datagram) × (heard : List ℕ) × ((translator_cccc_bon
        (known_at 5)
        0
        5
        9
        idle_slot).1
      ≡ send_dmrd 0 0 body ∷ [])
    × (obp_send_dmrd (known_at 5).cfg all_up 0 body ≡ some dg)
    × (on_obp_readable (known_at 6).cfg 0 (record dg { ip = []; port = 0 }) ≡ some heard)
    × (is_dropped (get_or heard flags_off 0) ≡ false)
    × ((link_dmrd_received (known_at 6) 1 heard idle_slot).1 ≡ send_bon 1 5 312000 8 3101 ∷ [])
unfolding obp_gate_open obp_peer_is_enabled
relay_bon_example =
    relay_bon (known_at 5) (known_at 6) 0 1 0 0 refl refl refl refl refl (omega arith) refl refl
      idle_slot idle_slot 5 9 refl refl refl

relay_voice_example :
    (body : List ℕ) × (is_dropped (get_or body flags_off 0) ≡ false)
    × ((translator_cccc_voice (env_at 5) 0 speech cc_slot).1 ≡ send_dmrd 0 0 body ∷ [])
    × ((link_dmrd_received (env_at 6) 1 body obp_slot).1
        ≡ send_voice 1
            (slot_index 6 0 % 65536)
            (480 * (slot_index 6 0 % 4294967296) % 4294967296)
            false
            speech
          ∷ [])
unfolding obp_gate_open obp_peer_is_enabled same_bytes
relay_voice_example =
    relay_voice (env_at 5) (env_at 6) 0 1 0 refl refl refl refl refl cc_slot obp_slot speech refl
      refl refl refl refl refl speech-IsBytes refl refl refl

relay_boff_example :
    (body : List ℕ) × (is_dropped (get_or body flags_off 0) ≡ false)
    × ((translator_cccc_boff (env_at 5) 0 cc_slot).1 ≡ send_dmrd 0 0 body ∷ [])
    × ((link_dmrd_received (env_at 6) 1 body obp_slot).1 ≡ send_boff 1 0 5 ∷ [])
unfolding obp_gate_open obp_peer_is_enabled same_bytes
relay_boff_example =
    relay_boff (env_at 5) (env_at 6) 0 1 0 refl refl refl refl refl cc_slot obp_slot refl refl refl
