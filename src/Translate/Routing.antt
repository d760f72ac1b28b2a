-- ===== src/Translate/Routing.antt =====
-- translate.c: the choice of a link for a DMRD frame.
use cc2obp.Common.{
  ℕ, zero, suc, ◌+◌, ◌/◌, ◌%◌, ◌<◌, ◌≡◌, refl, ap, ◌≢◌, ◌⊎◌, inl, inr, Bool, true, false, not, ◌&&◌,
  ◌||◌, Option, none, some, List, [], ◌∷◌, arith, ◌==◌, if◌then◌else◌, ==→≡, ==_refl, Bool-cases,
  Option-cases, passes, passes_each, get_or, drop, All,
}
use cc2obp.Wire.{rd24}
use cc2obp.Config.{LinkConfig}
use cc2obp.Openbridge.Const.{dst_off, flags_off}
use cc2obp.Translate.{Translator, Env, Action}
use cc2obp.Translate.Incoming.{is_dropped, link_dmrd_received}
use cc2obp.Translate.Steps.{is_link_for, find_link, on_link, translator_obp_dmrd_received}

-- The link has this peer and this talkgroup.
abbrev pub IsFor : ℕ → ℕ → LinkConfig → Type 0
IsFor p dst l = (l.openbridge_idx ≡ some p) × (l.tgid ≡ dst)

abbrev pub IsNotFor : ℕ → ℕ → LinkConfig → Type 0
IsNotFor p dst l = IsFor p dst l → ⊥

-- The link at an index is for the frame, and none before it is.
abbrev pub IsFirstFor : ℕ → ℕ → List LinkConfig → ℕ → Type 0
IsFirstFor p dst [] j = ⊥
IsFirstFor p dst (l ∷ ls) zero = IsFor p dst l
IsFirstFor p dst (l ∷ ls) (suc j) = IsNotFor p dst l × IsFirstFor p dst ls j

-- `is_link_for` on the fields that it reads.
abbrev is_match : ℕ → ℕ → Option ℕ → ℕ → Bool
is_match p dst idx tgid = elim idx [ none ↦ false | some q ↦ q == p && tgid == dst ]

both_true : (a b : Bool) → (a && b) ≡ true → (a ≡ true) × (b ≡ true)
both_true a b h = ground arith

is_match-fields :
    (p dst : ℕ) (idx : Option ℕ) (tgid : ℕ)
    → is_match p dst idx tgid ≡ true
    → (idx ≡ some p) × (tgid ≡ dst)
is_match-fields p dst none tgid h = absurd (ground arith)
is_match-fields p dst (some q) tgid h =
    let (peer, tg) = both_true _ _ h in (ap some (==→≡ q p peer), ==→≡ tgid dst tg)

is_match-hit :
    (p dst : ℕ) (idx : Option ℕ) (tgid : ℕ)
    → idx ≡ some p
    → tgid ≡ dst
    → is_match p dst idx tgid ≡ true
is_match-hit p dst none tgid peer tg = absurd (ground arith)
is_match-hit p dst (some q) tgid peer tg = ground arith

is_link_for-IsNotFor : (p dst : ℕ) (l : LinkConfig) → is_link_for p dst l ≡ false → IsNotFor p dst l
is_link_for-IsNotFor p dst l h (peer, tg) =
    let hit : is_link_for p dst l ≡ true = is_match-hit p dst l.openbridge_idx l.tgid peer tg in
    ground arith

find_link-none :
    (p dst k : ℕ) (links : List LinkConfig)
    → find_link p dst k links ≡ none
    → All (IsNotFor p dst) links
unfolding find_link
find_link-none p dst k [] h = tt
find_link-none p dst k (l ∷ links) h = elim (Bool-cases (is_link_for p dst l)) [
  | inl hit ↦ absurd (ground arith)
  | inr miss ↦
      let rest : find_link p dst (k + 1) links ≡ none = ground arith in
      (is_link_for-IsNotFor p dst l miss, find_link-none p dst (k + 1) links rest)
]

find_link-IsFirstFor :
    (p dst k i : ℕ) (links : List LinkConfig)
    → find_link p dst k links ≡ some i
    → (j : ℕ) × (i ≡ k + j) × IsFirstFor p dst links j
unfolding find_link
find_link-IsFirstFor p dst k i [] h = absurd (ground arith)
find_link-IsFirstFor p dst k i (l ∷ links) h = elim (Bool-cases (is_link_for p dst l)) [
  | inl hit ↦ (0, ground arith, is_match-fields p dst l.openbridge_idx l.tgid hit)
  | inr miss ↦
      let rest : find_link p dst (k + 1) links ≡ some i = ground arith in
      let (j, at, first) = find_link-IsFirstFor p dst (k + 1) i links rest in
      (suc j, ground arith, (is_link_for-IsNotFor p dst l miss, first))
]

-- The flags of a unit call (bit 6), or those with all of the bits 0, 1 and 5, as a CSBK has.
abbrev pub IsOutOfScope : ℕ → Type 0
IsOutOfScope flags = (flags / 64 % 2 ≡ 1) ⊎ ((flags / 32 % 2 ≡ 1) × (flags % 4 ≡ 3))

abbrev pub IsInScope : ℕ → Type 0
IsInScope flags = (flags / 64 % 2 ≡ 0) × ((flags / 32 % 2 ≡ 0) ⊎ (flags % 4 ≢ 3))

abbrev out_of_scope : ℕ → Bool
out_of_scope flags = flags / 64 % 2 == 1 || (flags / 32 % 2 == 1 && flags % 4 == 3)

is_dropped-out_of_scope :
    (flags : ℕ)
    → flags < 256
    → (if is_dropped flags then out_of_scope flags else not (out_of_scope flags)) ≡ true
is_dropped-out_of_scope flags byte =
    passes_each (λ v. if is_dropped v then out_of_scope v else not (out_of_scope v)) 256 flags byte
      (unfold passes is_dropped in refl)

is_dropped-IsOutOfScope : (flags : ℕ) → flags < 256 → is_dropped flags ≡ true → IsOutOfScope flags
is_dropped-IsOutOfScope flags byte dropped =
    let test = is_dropped-out_of_scope flags byte in
    let out : out_of_scope flags ≡ true = ground arith in
    elim (Bool-cases (flags / 64 % 2 == 1)) [
      | inl unit ↦ inl (==→≡ (flags / 64 % 2) 1 unit)
      | inr other ↦
          let bits : (flags / 32 % 2 == 1 && flags % 4 == 3) ≡ true = ground arith in
          let (high, low) = both_true _ _ bits in
          inr (==→≡ (flags / 32 % 2) 1 high, ==→≡ (flags % 4) 3 low)
    ]

is_dropped-IsInScope : (flags : ℕ) → flags < 256 → is_dropped flags ≡ false → IsInScope flags
is_dropped-IsInScope flags byte kept =
    let test = is_dropped-out_of_scope flags byte in
    let within : out_of_scope flags ≡ false = ground arith in
    let unit : (flags / 64 % 2 == 1) ≡ false = ground arith in
    let bits : (flags / 32 % 2 == 1 && flags % 4 == 3) ≡ false = ground arith in
    (bit_clear (flags / 64) unit, either bits)
  where
    bit_clear : (v : ℕ) → (v % 2 == 1) ≡ false → v % 2 ≡ 0
    bit_clear v off = ground arith

    either :
        (flags / 32 % 2 == 1 && flags % 4 == 3) ≡ false → (flags / 32 % 2 ≡ 0) ⊎ (flags % 4 ≢ 3)
    either bits = elim (Bool-cases (flags / 32 % 2 == 1)) [
      | inl high ↦ inr (λ low. ground arith)
      | inr off ↦ inl (bit_clear (flags / 32) off)
    ]

-- What a frame does when link `i` handles it: the handler's answer goes out, its state is that of the
-- link, and the state of any other link `k` stays.
abbrev pub IsHandled : Env → ℕ → List ℕ → ℕ → Translator → Translator × List Action → Type 0
IsHandled e i body k tr r =
    let out = link_dmrd_received e i body (record { lr = tr.link i; ctr = tr.obp_seq_ctr }) in
    (r.1 ≡ out.1)
    × (r.0.link i ≡ out.0.lr)
    × (r.0.obp_seq_ctr ≡ out.0.ctr)
    × ((k ≡ i) ⊎ (r.0.link k ≡ tr.link k))

on_link-IsHandled :
    (e : Env) (i : ℕ) (body : List ℕ) (k : ℕ) (tr : Translator)
    → IsHandled e i body k tr (on_link i (link_dmrd_received e i body) tr)
unfolding on_link
on_link-IsHandled e i body k tr = (refl, rw (==_refl i) refl, refl, elsewhere)
  where
    elsewhere : (k ≡ i) ⊎ ((on_link i (link_dmrd_received e i body) tr).0.link k ≡ tr.link k)
    elsewhere = elim (Bool-cases (k == i)) [
      | inl here ↦ inl (==→≡ k i here)
      | inr away ↦ inr (rw away refl)
    ]

-- What becomes of a frame: no link is for it and nothing happens, or the first link that is for it
-- handles it.
abbrev pub IsRouted : Env → ℕ → List ℕ → ℕ → Translator → Translator × List Action → Type 0
IsRouted e p body k tr r =
    ((IsOutOfScope (get_or body flags_off 0)
        ⊎ All (IsNotFor p (rd24 (drop dst_off body))) e.cfg.link)
      × (r ≡ (tr, [])))
    ⊎ (IsInScope (get_or body flags_off 0)
        × ((i : ℕ) × IsFirstFor p (rd24 (drop dst_off body)) e.cfg.link i
            × IsHandled e i body k tr r))

-- A DMRD frame from a peer is handled by the first link in the table with that peer and the
-- talkgroup in the frame, and any other link `k` keeps its state. If no link has them, or the flags
-- of the frame have bit 6 set, for a unit call, or all of the bits 0, 1 and 5, as a CSBK has, nothing
-- is sent and no state changes. The flags are a byte.
pub translator_obp_dmrd_received-IsRouted :
    (e : Env) (p : ℕ) (body : List ℕ) (k : ℕ) (tr : Translator)
    → get_or body flags_off 0 < 256
    → IsRouted e p body k tr (translator_obp_dmrd_received e p body tr)
unfolding translator_obp_dmrd_received
translator_obp_dmrd_received-IsRouted e p body k tr byte =
    elim (Bool-cases (is_dropped (get_or body flags_off 0))) [
      | inl dropped ↦ inl (inl (is_dropped-IsOutOfScope _ byte dropped), rw dropped refl)
      | inr kept ↦ elim (Option-cases (find_link p (rd24 (drop dst_off body)) 0 e.cfg.link)) [
        | inl nowhere ↦ inl (inr (find_link-none p _ 0 e.cfg.link nowhere), rw (kept, nowhere) refl)
        | inr (i, found) ↦
            let (j, at, first) = find_link-IsFirstFor p _ 0 i e.cfg.link found in
            let same : i ≡ j = omega arith in
            inr (
              is_dropped-IsInScope _ byte kept,
              (j, first, rw (kept, found, same) (on_link-IsHandled e j body k tr)),
            )
      ]
    ]
