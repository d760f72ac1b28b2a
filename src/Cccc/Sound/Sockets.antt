-- ===== src/Cccc/Sound/Sockets.antt =====
-- cccc/cccc_link.c: the datagrams, and the end of an attempt to connect.
use cc2obp.Common.{
  ℕ, ◌%◌, ◌<◌, ◌≡◌, refl, Bool, true, false, ◌&&◌, Option, none, some, List, [], ◌∷◌, arith, ltb,
  leb, ◌==◌, if◌then◌else◌, length, get_or, drop,
}
use cc2obp.Config.{link_at}
use cc2obp.Wire.{rd32, same_bytes, rd16}
use cc2obp.Cccc.Const.{keepalive_len, rtp_pt_keepalive, rtp_pkt_len, rtp_pt_voice, rtp_hdr_len}
use cc2obp.Cccc.Link.{CcLink, Env, Action, udp_sendto, tr_voice}
use cc2obp.Cccc.Connect.{connected, connect_failed}
use cc2obp.Cccc.Mux.{CcMux, find_link_by_ssrc, mint_sync_source, on_link}
use cc2obp.Cccc.Pending.{n_link}
use cc2obp.Cccc.Traffic.{
  keepalive_received, voice_received, on_voice_readable, on_trial_readable, on_connect_writable,
}
use cc2obp.Cccc.Steps.{is_connecting}
use cc2obp.Cccc.Sound.{IsSound, tell, tell_all, Tells, Fine, dials}
use cc2obp.Cccc.Sound.Handlers.{connect_failed-Fine, connected-Sound}
use cc2obp.Cccc.Sound.Lookup.{find_link_by_ssrc-some, mint_sync_source-free}
use cc2obp.Cccc.Sound.Table.{AllSound, IsUnique, IsGood, IsGood-nil, on_link-IsGood, placed-IsGood}
use cc2obp.Cccc.Sound.Asked.{IsFree-none}

connected-source :
    (e : Env) (i ssrc : ℕ) (lk : CcLink) → (connected e i ssrc lk).0.sync_source ≡ ssrc
unfolding connected
connected-source e i ssrc lk = refl

-- A datagram is nothing to translate.c.
datagram-told :
    (i j : ℕ) (u : Bool) (lk : CcLink) (lk' : CcLink) (ip : List ℕ) (port : ℕ) (bytes : List ℕ)
    → lk'.state ≡ lk.state
    → Tells i j u lk (lk', udp_sendto ip port bytes ∷ [])
unfolding tell_all tell
datagram-told i j u lk lk' ip port bytes same = rw same refl

module _ (e : Env) (mx : CcMux) (s : AllSound e mx) (q : IsUnique (n_link e) mx) where
  keepalive_received-IsGood :
      (buf src_ip : List ℕ) (src_port : ℕ)
      → IsGood e mx (keepalive_received e buf src_ip src_port mx)
  unfolding keepalive_received
  keepalive_received-IsGood buf src_ip src_port = found _ refl
    where
      heard : CcLink → CcLink × List Action
      heard lk = (record lk { last_keepalive_recv = e.now }, udp_sendto src_ip src_port buf ∷ [])

      heard-Fine :
          (i j : ℕ) (u : Bool) (lk : CcLink)
          → IsSound (dials e i) lk
          → Fine (dials e i) i j u lk (heard lk)
      heard-Fine i j u lk sound = (
        sound,
        (λ has. (has, refl)),
        datagram-told i j u lk (record lk { last_keepalive_recv = e.now }) src_ip src_port buf refl,
      )

      either :
          (i : ℕ) (b : Bool)
          → i < n_link e
          → IsGood e mx (if b then on_link i heard mx else (mx, []))
      either i true small =
          on_link-IsGood e i mx heard s q λ j u. heard-Fine i j u (mx.links i) (s i small)
      either i false small = IsGood-nil e mx s q

      found :
          (o : Option ℕ)
          → find_link_by_ssrc (rd32 (drop 8 buf)) (n_link e) 0 mx ≡ o
          → IsGood e mx (elim o [
            | none ↦ (mx, [])
            | some i ↦
                if same_bytes src_ip (link_at e.cfg i).cc_remote_ip
                then on_link i heard mx
                else (mx, [])
          ])
      found none h = IsGood-nil e mx s q
      found (some i) h =
          let (_, small, _) = find_link_by_ssrc-some _ (n_link e) 0 i mx h in
          either i (same_bytes src_ip (link_at e.cfg i).cc_remote_ip) (omega arith)

  voice_received-IsGood : (buf src_ip : List ℕ) → IsGood e mx (voice_received e buf src_ip mx)
  unfolding voice_received tell_all tell
  voice_received-IsGood buf src_ip = found (find_link_by_ssrc (rd32 (drop 8 buf)) (n_link e) 0 mx)
    where
      handed : ℕ → Action
      handed i =
          tr_voice i (rd16 (drop 2 buf)) (rd32 (drop 4 buf)) (leb 128 (get_or buf 1 0))
            (drop rtp_hdr_len buf)

      either : (i : ℕ) (b : Bool) → IsGood e mx (if b then (mx, handed i ∷ []) else (mx, []))
      either i true = (s, q, λ j. refl)
      either i false = IsGood-nil e mx s q

      found :
          (o : Option ℕ)
          → IsGood e mx (elim o [
            | none ↦ (mx, [])
            | some i ↦
                if same_bytes src_ip (link_at e.cfg i).cc_remote_ip
                then (mx, handed i ∷ [])
                else (mx, [])
          ])
      found none = IsGood-nil e mx s q
      found (some i) = either i (same_bytes src_ip (link_at e.cfg i).cc_remote_ip)

  pub on_voice_readable-IsGood :
      (buf src_ip : List ℕ) (src_port : ℕ)
      → IsGood e mx (on_voice_readable e buf src_ip src_port mx)
  unfolding on_voice_readable
  on_voice_readable-IsGood buf src_ip src_port =
      if-IsGood (ltb (length buf) 2) _ _ (IsGood-nil e mx s q) (
        if-IsGood (length buf == keepalive_len && get_or buf 1 0 % 128 == rtp_pt_keepalive) _ _
          (keepalive_received-IsGood buf src_ip src_port)
          (if-IsGood (length buf == rtp_pkt_len && get_or buf 1 0 % 128 == rtp_pt_voice) _ _
            (voice_received-IsGood buf src_ip) (IsGood-nil e mx s q)))
    where
      if-IsGood :
          (b : Bool) (x y : CcMux × List Action)
          → IsGood e mx x
          → IsGood e mx y
          → IsGood e mx (if b then x else y)
      if-IsGood true x y h k = h
      if-IsGood false x y h k = k

  pub on_trial_readable-IsGood :
      (buf src_ip : List ℕ) (src_port : ℕ)
      → IsGood e mx (on_trial_readable e buf src_ip src_port mx)
  unfolding on_trial_readable tell_all tell
  on_trial_readable-IsGood [] src_ip src_port = IsGood-nil e mx s q
  on_trial_readable-IsGood (c ∷ cs) src_ip src_port = (s, q, λ j. refl)

  pub on_connect_writable-IsGood :
      (i : ℕ) (ok : Bool) (draws : List ℕ)
      → i < n_link e
      → is_connecting (mx.links i).state ≡ true
      → IsGood e mx (on_connect_writable e i ok draws mx)
  unfolding on_connect_writable
  on_connect_writable-IsGood i false draws small waits =
      on_link-IsGood e i mx (connect_failed e i) s q
        λ j u. connect_failed-Fine e i j u (mx.links i) (s i small) waits
  on_connect_writable-IsGood i true draws small waits =
      minted (mint_sync_source (n_link e) draws mx) refl
    where
      minted :
          (o : Option ℕ)
          → mint_sync_source (n_link e) draws mx ≡ o
          → IsGood e mx (elim o [ none ↦ (mx, []) | some ssrc ↦ on_link i (connected e i ssrc) mx ])
      minted none h = IsGood-nil e mx s q
      minted (some ssrc) h =
          placed-IsGood e i mx (connected e i ssrc) ssrc s q
            (IsFree-none e i mx ssrc (mint_sync_source-free (n_link e) ssrc draws mx h))
            (connected-source e i ssrc (mx.links i))
            λ j u. connected-Sound e i j u (mx.links i) ssrc (s i small) waits
