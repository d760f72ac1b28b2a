-- ===== src/Cccc/Voice.antt =====
-- cccc/cccc_link.c: a voice packet from the link that sends it to the translator at the other end.
use cc2obp.Common.{
  ℕ, ◌%◌, ◌<◌, ◌≡◌, refl, ap, ◌∙◌, inl, inr, Bool, true, false, some, List, [], ◌∷◌, arith, leb,
  Option-cases, length, get_or, drop,
}
use cc2obp.Wire.{rd32, rd16, wr32, wr16, rd32-wr32, rd16-wr16, same_bytes_refl}
use cc2obp.Config.{link_at}
use cc2obp.Cccc.Link.{
  CcLink, Env, Action, udp_sendto, tr_voice, lst_up, build_voice, udp_send_to_link, cccc_send_voice,
  lcfg,
}
use cc2obp.Cccc.Mux.{CcMux, find_link_by_ssrc}
use cc2obp.Cccc.Pending.{n_link}
use cc2obp.Cccc.Traffic.{voice_received, on_voice_readable}
use cc2obp.Cccc.Sound.Lookup.{holds, find_link_by_ssrc-none, find_link_by_ssrc-some}
use cc2obp.Cccc.Sound.Table.{IsUnique}

-- The link that holds a sync source is the one that is found.
found :
    (e : Env) (mx : CcMux) (ssrc i : ℕ)
    → IsUnique (n_link e) mx
    → i < n_link e
    → holds mx ssrc i ≡ true
    → find_link_by_ssrc ssrc (n_link e) 0 mx ≡ some i
found e mx ssrc i q small held = elim (Option-cases (find_link_by_ssrc ssrc (n_link e) 0 mx)) [
  | inl none_holds ↦ absurd (
      let free =
        find_link_by_ssrc-none ssrc (n_link e) 0 i mx none_holds (omega arith) (omega arith) in
      ground arith)
  | inr (j, at_j) ↦
      let (_, small', held') = find_link_by_ssrc-some ssrc (n_link e) 0 j mx at_j in
      at_j ∙ ap some (q j i (omega arith) small (ground arith) (ground arith) (ground arith))
]

-- A voice packet, field by field.
voice_fields :
    (seq timestamp ssrc : ℕ) (marker : Bool) (ambe21 : List ℕ)
    → length ambe21 ≡ 21
    → let buf = build_voice seq timestamp marker ssrc ambe21 in
      (length buf ≡ 33)
      × (get_or buf 1 0 % 128 ≡ 94)
      × (leb 128 (get_or buf 1 0) ≡ marker)
      × (rd16 (drop 2 buf) ≡ seq % 65536)
      × (rd32 (drop 4 buf) ≡ timestamp % 4294967296)
      × (rd32 (drop 8 buf) ≡ ssrc % 4294967296)
      × (drop 12 buf ≡ ambe21)
unfolding build_voice wr16 wr32
voice_fields seq timestamp ssrc true ambe21 long =
    (omega arith, refl, refl, rd16-wr16 seq _, rd32-wr32 timestamp _, rd32-wr32 ssrc _, refl)
voice_fields seq timestamp ssrc false ambe21 long =
    (omega arith, refl, refl, rd16-wr16 seq _, rd32-wr32 timestamp _, rd32-wr32 ssrc _, refl)

is_voice :
    (e : Env) (buf src_ip : List ℕ) (src_port : ℕ) (mx : CcMux)
    → length buf ≡ 33
    → get_or buf 1 0 % 128 ≡ 94
    → on_voice_readable e buf src_ip src_port mx ≡ voice_received e buf src_ip mx
unfolding on_voice_readable
is_voice e buf src_ip src_port mx n pt = rw (n, on_voice_readable) (rw pt refl)

handed :
    (e : Env) (buf : List ℕ) (i ssrc : ℕ) (mx : CcMux)
    → rd32 (drop 8 buf) ≡ ssrc
    → find_link_by_ssrc ssrc (n_link e) 0 mx ≡ some i
    → voice_received e buf (link_at e.cfg i).cc_remote_ip mx ≡ (
      mx,
      tr_voice i (rd16 (drop 2 buf)) (rd32 (drop 4 buf)) (leb 128 (get_or buf 1 0)) (drop 12 buf)
          ∷ [],
    )
unfolding voice_received
handed e buf i ssrc mx r h =
    rw (r, voice_received) (rw h (rw (same_bytes_refl (link_at e.cfg i).cc_remote_ip) refl))

module _ (e e' : Env) (i i' : ℕ) (lk : CcLink) (mx : CcMux) (seq timestamp : ℕ) (marker : Bool)
    (ambe21 : List ℕ) (src_port : ℕ) where
  abbrev bytes : List ℕ
  bytes = build_voice seq timestamp marker lk.sync_source ambe21

  -- The voice packet that `cccc_send_voice` sends for a link that is up, once it arrives from the
  -- configured address at the end where the one link that holds its sync source is `i'`, hands
  -- translate.c there the same sequence number, timestamp, marker and 21 bytes, and changes
  -- nothing. The numbers fit their fields.
  pub cccc_send_voice-arrives :
      lk.state ≡ lst_up
      → length ambe21 ≡ 21
      → seq < 65536
      → timestamp < 4294967296
      → lk.sync_source < 4294967296
      → IsUnique (n_link e') mx
      → i' < n_link e'
      → holds mx lk.sync_source i' ≡ true
      → (cccc_send_voice e i seq timestamp marker ambe21 lk
          ≡ (lk, udp_sendto (lcfg e i).cc_remote_ip (lcfg e i).cc_remote_voice_port bytes ∷ []))
        × (on_voice_readable e' bytes (link_at e'.cfg i').cc_remote_ip src_port mx
            ≡ (mx, tr_voice i' seq timestamp marker ambe21 ∷ []))
  unfolding cccc_send_voice udp_send_to_link
  cccc_send_voice-arrives up long seq16 ts32 ssrc32 q small held =
      let (n, pt, m, s, t, r, rest) =
        voice_fields seq timestamp lk.sync_source marker ambe21 long in
      (
        rw up refl,
        is_voice e' bytes _ src_port mx n pt
            ∙ handed e' bytes i' lk.sync_source mx (omega arith)
                (found e' mx lk.sync_source i' q small held)
            ∙ same (omega arith) (omega arith) m rest,
      )
    where
      given : ℕ → ℕ → Bool → List ℕ → CcMux × List Action
      given a b c d = (mx, tr_voice i' a b c d ∷ [])

      same :
          {a b : ℕ} {c : Bool} {d : List ℕ}
          → a ≡ seq
          → b ≡ timestamp
          → c ≡ marker
          → d ≡ ambe21
          → given a b c d ≡ given seq timestamp marker ambe21
      same h1 h2 h3 h4 = cc (h1, h2, h3, h4)
