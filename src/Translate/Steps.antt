-- ===== src/Translate/Steps.antt =====
-- translate.c: the whole link table, and one event after another.
use cc2obp.Common.{
  ℕ, zero, suc, ◌+◌, Bool, false, ◌&&◌, Option, none, some, List, [], ◌∷◌, ◌++◌, ◌==◌,
  if◌then◌else◌, length, get_or, drop,
}
use cc2obp.Wire.{rd24}
use cc2obp.Config.{LinkConfig}
use cc2obp.Openbridge.Const.{dst_off, flags_off}
use cc2obp.Translate.Incoming.{
  is_dropped, translator_cccc_bon, translator_cccc_voice, translator_cccc_boff,
  translator_cccc_link_up, translator_cccc_link_down, link_dmrd_received, link_tick,
}
use cc2obp.Translate.{Translator, Env, Handler, Action, zero_call, update}

-- A handler of link `i`, on the whole table.
unfoldable pub on_link : ℕ → Handler → Translator → Translator × List Action
on_link i h tr =
    let r = h (record { lr = tr.link i; ctr = tr.obp_seq_ctr }) in
    (record { link = update tr.link i r.0.lr; obp_seq_ctr = r.0.ctr }, r.1)

abbrev pub is_link_for : ℕ → ℕ → LinkConfig → Bool
is_link_for p dst l = elim l.openbridge_idx [ none ↦ false | some q ↦ q == p && l.tgid == dst ]

-- The first link with this peer and talkgroup; the list begins at index `i`.
unfoldable pub find_link : ℕ → ℕ → ℕ → List LinkConfig → Option ℕ
find_link p dst i [] = none
find_link p dst i (l ∷ ls) = if is_link_for p dst l then some i else find_link p dst (i + 1) ls

unfoldable pub translator_obp_dmrd_received :
    Env → ℕ → List ℕ → Translator → Translator × List Action
unfolding on_link
translator_obp_dmrd_received e p body tr =
    if is_dropped (get_or body flags_off 0)
    then (tr, [])
    else elim (find_link p (rd24 (drop dst_off body)) 0 e.cfg.link) [
      | none ↦ (tr, [])
      | some i ↦ on_link i (link_dmrd_received e i body) tr
    ]

-- Links left, and the link.
unfoldable pub tick_links : Env → ℕ → ℕ → Translator → Translator × List Action
unfolding on_link
tick_links e zero i tr = (tr, [])
tick_links e (suc n) i tr =
    let r = on_link i (link_tick e i) tr in
    let rest = tick_links e n (i + 1) r.0 in (rest.0, r.1 ++ rest.1)

unfoldable pub translator_tick : Env → Translator → Translator × List Action
unfolding tick_links
translator_tick e tr = tick_links e (length e.cfg.link) 0 tr

unfoldable pub translator_new : Translator
translator_new = record {
  link = λ _. record { has_call = false; call = zero_call; cx_drop_logged = false };
  obp_seq_ctr = λ _. 0;
}

-- The calls into the translator, of cccc_link.c, obp_link.c and the timer of main.c.
pub data Event : Type 0 where
  link_up link_down : (i : ℕ) → Event
  bon : (i radio_id peer_id : ℕ) → Event
  boff : (i : ℕ) → Event
  voice : (i : ℕ) (ambe21 : List ℕ) → Event
  dmrd : (p : ℕ) (body : List ℕ) → Event
  tick : Event

unfoldable pub step : Env → Event → Translator → Translator × List Action
unfolding translator_obp_dmrd_received translator_tick on_link
step e (link_up i) tr = on_link i (translator_cccc_link_up e i) tr
step e (link_down i) tr = on_link i (translator_cccc_link_down e i) tr
step e (bon i radio_id peer_id) tr = on_link i (translator_cccc_bon e i radio_id peer_id) tr
step e (boff i) tr = on_link i (translator_cccc_boff e i) tr
step e (voice i ambe21) tr = on_link i (translator_cccc_voice e i ambe21) tr
step e (dmrd p body) tr = translator_obp_dmrd_received e p body tr
step e tick tr = translator_tick e tr

unfoldable pub run : List (Env × Event) → Translator → Translator × List Action
run [] tr = (tr, [])
run ((e, ev) ∷ evs) tr = let r = step e ev tr in let rest = run evs r.0 in (rest.0, r.1 ++ rest.1)
