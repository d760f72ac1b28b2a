-- ===== src/Cccc/Sound/Lookup.antt =====
-- cccc/cccc_link.c: the searches of the table, for a sync source and for a Question.
use mathlib.Core.Path.{subst}
use cc2obp.Common.{
  ℕ, zero, suc, ◌+◌, ◌≤◌, ◌<◌, ◌≡◌, sym, inl, inr, Bool, true, false, ◌&&◌, none, some, List, [],
  ◌∷◌, arith, ◌==◌, ==→≡, Bool-cases,
}
use cc2obp.Config.{Config, link_at}
use cc2obp.Cccc.Mux.{CcMux, find_link_by_ssrc, mint_sync_source}
use cc2obp.Cccc.Pending.{match_question, is_asked_for}

abbrev pub holds : CcMux → ℕ → ℕ → Bool
holds mx ssrc a = (mx.links a).has_sync_source && (mx.links a).sync_source == ssrc

-- A search that fails has passed each of the links.
pub find_link_by_ssrc-none :
    (ssrc n k a : ℕ) (mx : CcMux)
    → find_link_by_ssrc ssrc n k mx ≡ none
    → k ≤ a
    → a < k + n
    → holds mx ssrc a ≡ false
unfolding find_link_by_ssrc
find_link_by_ssrc-none ssrc zero k a mx h from to = absurd (omega arith)
find_link_by_ssrc-none ssrc (suc n) k a mx h from to =
    let ih : find_link_by_ssrc ssrc n (k + 1) mx ≡ none
        → k + 1 ≤ a
        → a < k + 1 + n
        → holds mx ssrc a ≡ false =
      find_link_by_ssrc-none ssrc n (k + 1) a mx in
    elim (Bool-cases (a == k)) [
      | inl here ↦ subst (λ x. holds mx ssrc x ≡ false) (sym (==→≡ a k here)) (ground arith)
      | inr there ↦ ground arith
    ]

pub find_link_by_ssrc-some :
    (ssrc n k j : ℕ) (mx : CcMux)
    → find_link_by_ssrc ssrc n k mx ≡ some j
    → (k ≤ j) × (j < k + n) × (holds mx ssrc j ≡ true)
unfolding find_link_by_ssrc
find_link_by_ssrc-some ssrc zero k j mx h = ground arith
find_link_by_ssrc-some ssrc (suc n) k j mx h =
    let ih = find_link_by_ssrc-some ssrc n (k + 1) j mx in ground arith

pub match_question-some :
    (cfg : Config) (src_ip : List ℕ) (lid n k j : ℕ)
    → match_question cfg src_ip lid n k ≡ some j
    → (k ≤ j) × (j < k + n) × (is_asked_for src_ip lid (link_at cfg j) ≡ true)
unfolding match_question
match_question-some cfg src_ip lid zero k j h = ground arith
match_question-some cfg src_ip lid (suc n) k j h =
    let ih = match_question-some cfg src_ip lid n (k + 1) j in ground arith

-- What is minted was drawn, and no link holds it.
pub mint_sync_source-free :
    (n ssrc : ℕ) (draws : List ℕ) (mx : CcMux)
    → mint_sync_source n draws mx ≡ some ssrc
    → find_link_by_ssrc ssrc n 0 mx ≡ none
unfolding mint_sync_source
mint_sync_source-free n ssrc [] mx h = ground arith
mint_sync_source-free n ssrc (s ∷ draws) mx h =
    let ih = mint_sync_source-free n ssrc draws mx in ground arith
