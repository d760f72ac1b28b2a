-- ===== src/Translate/Clock.antt =====
-- translate.c: the idle timeout and the RTP slot clock.
use mathlib.Core.Path.{subst}
use cc2obp.Common.{
  ℕ, zero, suc, ◌+◌, ◌-◌, ◌*◌, ◌≤◌, ◌<◌, ◌≡◌, refl, sym, ◌∙◌, ◌⊎◌, inl, inr, Bool, false, not, ◌&&◌,
  arith, ltb, ◌==◌, ==→≡, ==_refl, Bool-cases, length,
}
use cc2obp.Translate.Handlers.{
  send_dmrd_frame, send_obp_voice_term, end_obp_origin_call, end_cc_origin_call, slot_index,
  slot_ns,
}
use cc2obp.Translate.Incoming.{link_tick}
use cc2obp.Translate.Steps.{on_link, tick_links, translator_tick}
use cc2obp.Translate.{LinkRuntime, Translator, Env, Slot, Handler}
use cc2obp.Translate.Protocol.{slot_of}
use cc2obp.Translate.Links.{IsWellFormed}

-- More than five seconds without activity.
abbrev pub is_idle : Env → LinkRuntime → Bool
is_idle e lr = ltb (lr.call.last_activity + 5000000000) e.now

link_tick-ends :
    (e : Env) (i : ℕ) (s : Slot)
    → IsWellFormed s.lr
    → ((link_tick e i s).0.lr.has_call ≡ (s.lr.has_call && not (is_idle e s.lr)))
      × ((link_tick e i s).0.lr.call ≡ s.lr.call)
unfolding link_tick end_obp_origin_call end_cc_origin_call send_obp_voice_term send_dmrd_frame
link_tick-ends e i s w = ground arith

-- What is left of the call of a link after the timer.
abbrev pub Timed : Env → LinkRuntime → LinkRuntime → Type 0
Timed e before after =
    (after.has_call ≡ (before.has_call && not (is_idle e before))) × (after.call ≡ before.call)

on_link_self :
    (i : ℕ) (h : Handler) (tr : Translator) → (on_link i h tr).0.link i ≡ (h (slot_of tr i)).0.lr
unfolding on_link
on_link_self i h tr = rw (==_refl i) refl

on_link-other :
    (i j : ℕ) (h : Handler) (tr : Translator)
    → (j == i) ≡ false
    → (on_link i h tr).0.link j ≡ tr.link j
unfolding on_link
on_link-other i j h tr other = rw other refl

==-apart : (i j : ℕ) → j < i ⊎ i < j → (j == i) ≡ false
==-apart i j h = ground arith

tick_links-outside :
    (e : Env) (n k j : ℕ) (tr : Translator)
    → j < k ⊎ k + n ≤ j
    → (tick_links e n k tr).0.link j ≡ tr.link j
unfolding tick_links
tick_links-outside e zero k j tr out = refl
tick_links-outside e (suc n) k j tr out =
    tick_links-outside e n (k + 1) j (on_link k (link_tick e k) tr).0 (ground arith)
    ∙ on_link-other k j (link_tick e k) tr (==-apart k j (ground arith))

tick_links-Timed :
    (e : Env) (n k j : ℕ) (tr : Translator)
    → IsWellFormed (tr.link j)
    → k ≤ j
    → j < k + n
    → Timed e (tr.link j) ((tick_links e n k tr).0.link j)
unfolding tick_links
tick_links-Timed e zero k j tr w le lt = absurd (omega arith)
tick_links-Timed e (suc n) k j tr w le lt = elim (Bool-cases (j == k)) [
  | inl here ↦ at_k (==→≡ j k here)
  | inr there ↦
      past there
        (tick_links-Timed e n (k + 1) j first (kept_form there) (ground arith) (omega arith))
]
  where
    first : Translator
    first = (on_link k (link_tick e k) tr).0

    at_k : j ≡ k → Timed e (tr.link j) ((tick_links e n (k + 1) first).0.link j)
    at_k q =
        subst (Timed e (tr.link j))
          (sym (
            tick_links-outside e n (k + 1) j first (inl (omega arith))
            ∙ subst (λ t. first.link t ≡ (link_tick e k (slot_of tr t)).0.lr) (sym q)
                (on_link_self k (link_tick e k) tr)))
          (link_tick-ends e k (slot_of tr j) w)

    kept : (j == k) ≡ false → first.link j ≡ tr.link j
    kept there = on_link-other k j (link_tick e k) tr there

    kept_form : (j == k) ≡ false → IsWellFormed (first.link j)
    kept_form there = subst IsWellFormed (sym (kept there)) w

    past :
        (j == k) ≡ false
        → Timed e (first.link j) ((tick_links e n (k + 1) first).0.link j)
        → Timed e (tr.link j) ((tick_links e n (k + 1) first).0.link j)
    past there timed =
        subst (λ l. Timed e l ((tick_links e n (k + 1) first).0.link j)) (kept there) timed

-- The timer ends the call of a link of the table exactly when more than five seconds have passed
-- without activity, and leaves the rest of the call's record. The link is well formed before.
pub translator_tick-ends :
    (e : Env) (tr : Translator) (j : ℕ)
    → IsWellFormed (tr.link j)
    → j < length e.cfg.link
    → Timed e (tr.link j) ((translator_tick e tr).0.link j)
unfolding translator_tick
translator_tick-ends e tr j w lt =
    tick_links-Timed e (length e.cfg.link) 0 j tr w (omega arith) (omega arith)

-- The rounded slot is the nearest: the burst's time is within half a slot of it.
slot_index-nearest :
    (now start : ℕ)
    → (slot_ns * slot_index now start ≤ (now - start) + 30000000)
      × ((now - start) < slot_ns * slot_index now start + 30000000)
unfolding slot_index
slot_index-nearest now start = (omega arith, omega arith)

-- The slot does not go back while the clock does not.
pub slot_index-monotone :
    (now later start : ℕ) → now ≤ later → slot_index now start ≤ slot_index later start
unfolding slot_index
slot_index-monotone now later start h = omega arith
