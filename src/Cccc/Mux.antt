-- ===== src/Cccc/Mux.antt =====
-- cccc/cccc_link.c: the whole of the CC-CC side, its links, its inbound connections that have not
-- asked their Question yet, and its three sockets.
use cc2obp.Common.{
  ℕ, zero, suc, ◌+◌, Bool, false, ◌&&◌, Option, none, some, List, [], ◌∷◌, ◌++◌, ◌==◌,
  if◌then◌else◌,
}
use cc2obp.Cccc.Link.{CcLink, Handler, Action, new_link}

-- The lengths of `rxbuf` and `qlines` are `rxlen` and `qnlines`.
pub record PendingConn : Type 0 where
  pub in_use : Bool
  pub fd : Option ℕ
  pub src_ip : List ℕ
  pub rxbuf : List ℕ
  pub qlines : List (List ℕ)
  pub timeout_timer : Option ℕ

pub record CcMux : Type 0 where
  pub voice_fd : Option ℕ
  pub trial_fd : Option ℕ
  pub listen_fd : Option ℕ
  pub links : ℕ → CcLink
  pub pending : ℕ → PendingConn
  pub user_ctr : ℕ → ℕ

abbrev pub put {ℓ} : {A : Type ℓ} → (ℕ → A) → ℕ → A → ℕ → A
put f i v j = if j == i then v else f j

abbrev pub no_pending : PendingConn
no_pending = record {
  in_use = false;
  fd = none;
  src_ip = [];
  rxbuf = [];
  qlines = [];
  timeout_timer = none;
}

unfoldable pub cccc_mux_new : CcMux
cccc_mux_new = record {
  voice_fd = none;
  trial_fd = none;
  listen_fd = none;
  links = λ _. new_link;
  pending = λ _. no_pending;
  user_ctr = λ _. 0;
}

-- The first of `n` links, from link `i` on, that holds the sync source.
unfoldable pub find_link_by_ssrc : ℕ → ℕ → ℕ → CcMux → Option ℕ
find_link_by_ssrc ssrc zero i mx = none
find_link_by_ssrc ssrc (suc n) i mx =
    let later = find_link_by_ssrc ssrc n (i + 1) mx in
    if (mx.links i).has_sync_source && (mx.links i).sync_source == ssrc then some i else later

-- The first of the numbers drawn that no link holds; `none` if the loop needs another draw.
unfoldable pub mint_sync_source : ℕ → List ℕ → CcMux → Option ℕ
unfolding find_link_by_ssrc
mint_sync_source n [] mx = none
mint_sync_source n (s ∷ draws) mx =
    let later = mint_sync_source n draws mx in
    elim (find_link_by_ssrc s n 0 mx) [ none ↦ some s | some _ ↦ later ]

abbrev pub on_link : ℕ → Handler → CcMux → CcMux × List Action
on_link i h mx = let r = h (mx.links i) in (record mx { links = put mx.links i r.0 }, r.1)

-- A loop over `n` links from link `i` on.
unfoldable pub each_link : (ℕ → Handler) → ℕ → ℕ → CcMux → CcMux × List Action
each_link h zero i mx = (mx, [])
each_link h (suc n) i mx =
    let r = on_link i (h i) mx in let rest = each_link h n (i + 1) r.0 in (rest.0, r.1 ++ rest.1)
