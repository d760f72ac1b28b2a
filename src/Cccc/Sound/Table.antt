-- ===== src/Cccc/Sound/Table.antt =====
-- cccc/cccc_link.c: the handlers of one link, on the table of links.
use mathlib.Core.Path.{subst}
use cc2obp.Common.{
  ℕ, zero, suc, ◌+◌, ◌≤◌, ◌<◌, ◌≡◌, refl, sym, ◌∙◌, ◌⊎◌, inl, inr, Bool, true, false, some, List,
  [], ◌++◌, arith, ◌==◌, ==→≡, ==_refl, Bool-cases,
}
use cc2obp.Cccc.Link.{CcLink, Env, Handler, Action, is_up}
use cc2obp.Cccc.Mux.{CcMux, put, on_link, each_link}
use cc2obp.Cccc.Pending.{n_link}
use cc2obp.Cccc.Sound.{IsSound, tell_all, tell_all-append, Keeps, Tells, Fine, dials}

abbrev pub AllSound : Env → CcMux → Type 0
AllSound e mx = (i : ℕ) → i < n_link e → IsSound (dials e i) (mx.links i)

-- No two links of the `n` hold the same sync source.
abbrev pub IsUnique : ℕ → CcMux → Type 0
IsUnique n mx =
    (i j : ℕ)
    → i < n
    → j < n
    → (mx.links i).has_sync_source ≡ true
    → (mx.links j).has_sync_source ≡ true
    → (mx.links i).sync_source ≡ (mx.links j).sync_source
    → i ≡ j

abbrev pub up_at : CcMux → ℕ → Bool
up_at mx j = is_up (mx.links j).state

abbrev pub IsTold : CcMux → CcMux × List Action → Type 0
IsTold mx r = (j : ℕ) → tell_all j (up_at mx j) r.1 ≡ some (up_at r.0 j)

abbrev pub IsGood : Env → CcMux → CcMux × List Action → Type 0
IsGood e mx r = AllSound e r.0 × IsUnique (n_link e) r.0 × IsTold mx r

pub put_self {ℓ} : {A : Type ℓ} → (f : ℕ → A) (i : ℕ) (v : A) → put f i v i ≡ v
put_self f i v = rw (==_refl i) refl

pub put-other {ℓ} :
    {A : Type ℓ} → (f : ℕ → A) (i j : ℕ) (v : A) → (j == i) ≡ false → put f i v j ≡ f j
put-other f i j v h = rw h refl

-- What holds of every entry, and of the new one, holds of every entry after the update.
pub put-each {ℓ κ} :
    {A : Type ℓ}
    → (P : ℕ → A → Type κ) (f : ℕ → A) (i : ℕ) (v : A) → P i v
    → (j : ℕ) → P j (f j)
    → P j (put f i v j)
put-each P f i v new j old = elim (Bool-cases (j == i)) [
  | inl here ↦
      subst (λ k. P k (put f i v k)) (sym (==→≡ j i here)) (subst (P i) (sym (put_self f i v)) new)
  | inr there ↦ subst (P j) (sym (put-other f i j v there)) old
]

pub IsTold-then :
    (mx : CcMux) (r s : CcMux × List Action)
    → IsTold mx r
    → IsTold r.0 s
    → IsTold mx (s.0, r.1 ++ s.1)
IsTold-then mx r s h k j = tell_all-append j (up_at mx j) (up_at r.0 j) r.1 s.1 (h j) ∙ k j

pub IsGood-then :
    (e : Env) (mx : CcMux) (r s : CcMux × List Action)
    → IsGood e mx r
    → IsGood e r.0 s
    → IsGood e mx (s.0, r.1 ++ s.1)
IsGood-then e mx r s h k = (k.0, k.1, IsTold-then mx r s h.2 k.2)

pub IsGood-nil :
    (e : Env) (mx : CcMux) → AllSound e mx → IsUnique (n_link e) mx → IsGood e mx (mx, [])
unfolding tell_all
IsGood-nil e mx s q = (s, q, λ j. refl)

==-swap : (a b : ℕ) → (a == b) ≡ false → (b == a) ≡ false
==-swap a b h = ground arith

module _ (e : Env) (i : ℕ) (mx : CcMux) where
  abbrev after : CcLink → CcMux
  after lk = record mx { links = put mx.links i lk }

  on_link-Keeps :
      (lk : CcLink) → Keeps (mx.links i) lk → (a : ℕ) → Keeps (mx.links a) (put mx.links i lk a)
  on_link-Keeps lk k a = put-each (λ b l. Keeps (mx.links b) l) mx.links i lk k a λ has. (has, refl)

  on_link-IsUnique :
      (lk : CcLink)
      → Keeps (mx.links i) lk
      → IsUnique (n_link e) mx
      → IsUnique (n_link e) (after lk)
  on_link-IsUnique lk k q a b sa sb ha hb same =
      let (ha', ea) = on_link-Keeps lk k a ha in
      let (hb', eb) = on_link-Keeps lk k b hb in q a b sa sb ha' hb' (sym ea ∙ same ∙ eb)

  on_link-AllSound : (lk : CcLink) → IsSound (dials e i) lk → AllSound e mx → AllSound e (after lk)
  on_link-AllSound lk new s a small =
      put-each (λ b l. b < n_link e → IsSound (dials e b) l) mx.links i lk (λ _. new) a (s a) small

  on_link-IsTold :
      (r : CcLink × List Action)
      → ((j : ℕ) (u : Bool) → Tells i j u (mx.links i) r)
      → IsTold mx (after r.0, r.1)
  on_link-IsTold r t j = elim (Bool-cases (i == j)) [
    | inl here ↦
        subst (λ k. tell_all k (up_at mx k) r.1 ≡ some (up_at (after r.0) k)) (==→≡ i j here)
          (subst (λ l. tell_all i (up_at mx i) r.1 ≡ some (is_up l.state))
            (sym (put_self mx.links i r.0)) (own (t i true)))
    | inr there ↦
        subst (λ l. tell_all j (up_at mx j) r.1 ≡ some (is_up l.state))
          (sym (put-other mx.links i j r.0 (==-swap i j there))) (rw there at (t j (up_at mx j)))
  ]
    where
      own : Tells i i true (mx.links i) r → tell_all i (up_at mx i) r.1 ≡ some (is_up r.0.state)
      own h = rw (==_refl i) at h

  pub on_link-IsGood :
      (h : Handler)
      → AllSound e mx
      → IsUnique (n_link e) mx
      → ((j : ℕ) (u : Bool) → Fine (dials e i) i j u (mx.links i) (h (mx.links i)))
      → IsGood e mx (on_link i h mx)
  on_link-IsGood h s q fine =
      let lk = (h (mx.links i)).0 in
      let (new, k, _) = fine 0 true in
      (
        on_link-AllSound lk new s,
        on_link-IsUnique lk k q,
        on_link-IsTold (h (mx.links i)) λ j u. (fine j u).2,
      )

  -- No other link holds the sync source.
  abbrev pub IsFree : ℕ → Type 0
  IsFree ssrc =
      (k : ℕ)
      → k < n_link e
      → (mx.links k).has_sync_source ≡ true
      → (mx.links k).sync_source ≡ ssrc
      → k ≡ i

  -- The link takes a sync source that is free.
  pub placed-IsGood :
      (h : Handler) (ssrc : ℕ)
      → AllSound e mx
      → IsUnique (n_link e) mx
      → IsFree ssrc
      → (h (mx.links i)).0.sync_source ≡ ssrc
      → ((j : ℕ) (u : Bool)
          → IsSound (dials e i) (h (mx.links i)).0 × Tells i j u (mx.links i) (h (mx.links i)))
      → IsGood e mx (on_link i h mx)
  placed-IsGood h ssrc s q free mine good = (
    on_link-AllSound _ (good 0 true).0 s,
    unique,
    on_link-IsTold (h (mx.links i)) λ j u. (good j u).1,
  )
    where
      lk : CcLink
      lk = (h (mx.links i)).0

      -- Each link is the one that was placed, or is as it was and has another source.
      old :
          (a : ℕ)
          → ((a ≡ i) × (put mx.links i lk a ≡ lk))
            ⊎ (((a == i) ≡ false) × (put mx.links i lk a ≡ mx.links a))
      old a = elim (Bool-cases (a == i)) [
        | inl here ↦ inl (==→≡ a i here, rw here refl)
        | inr there ↦ inr (there, rw there refl)
      ]

      -- A link other than the placed one does not hold the placed source.
      apart :
          (a : ℕ)
          → a < n_link e
          → (a == i) ≡ false
          → (mx.links a).has_sync_source ≡ true
          → (mx.links a).sync_source ≡ ssrc
          → i ≡ a
      apart a small there has same = absurd (let at_i = free a small has same in ground arith)

      unique : IsUnique (n_link e) (after lk)
      unique a b sa sb ha hb same = elim (old a) [
        | inl (ai, ea) ↦ elim (old b) [
          | inl (bi, _) ↦ ai ∙ sym bi
          | inr (nb, eb) ↦ ai ∙ apart b sb nb (rw eb at hb) (sym (rw eb at (rw ea at same)) ∙ mine)
        ]
        | inr (na, ea) ↦ elim (old b) [
          | inl (bi, eb) ↦ sym (bi ∙ apart a sa na (rw ea at ha) (rw eb at (rw ea at same) ∙ mine))
          | inr (nb, eb) ↦ q a b sa sb (rw ea at ha) (rw eb at hb) (rw eb at (rw ea at same))
        ]
      ]

-- A loop whose body is good on every link that is sound and as the loop finds it.
pub each_link-IsGood {κ} :
    (e : Env) (h : ℕ → Handler) (Q : CcLink → Type κ) (n k : ℕ) (mx : CcMux)
    → ((i j : ℕ) (u : Bool) (lk : CcLink)
        → Q lk
        → IsSound (dials e i) lk
        → Fine (dials e i) i j u lk (h i lk))
    → k + n ≤ n_link e
    → ((a : ℕ) → k ≤ a → Q (mx.links a))
    → AllSound e mx
    → IsUnique (n_link e) mx
    → IsGood e mx (each_link h n k mx)
unfolding each_link
each_link-IsGood e h Q zero k mx fine fits ready s q = IsGood-nil e mx s q
each_link-IsGood e h Q (suc n) k mx fine fits ready s q =
    let found = ready k (omega arith) in
    let sound = s k (omega arith) in
    let one = on_link-IsGood e k mx (h k) s q λ j u. fine k j u (mx.links k) found sound in
    let next = (on_link k (h k) mx).0 in
    let later = λ (a : ℕ) (from : k + 1 ≤ a).
      subst Q (sym (put-other mx.links k a (h k (mx.links k)).0 (ground arith)))
        (ready a (omega arith)) in
    IsGood-then e mx (on_link k (h k) mx) (each_link h n (k + 1) next) one
      (each_link-IsGood e h Q n (k + 1) next fine (omega arith) later one.0 one.1)
