-- ===== src/Cccc/Sound/Life.antt =====
-- cccc/cccc_link.c: the CC-CC side from its start on.
use cc2obp.Common.{
  ℕ, ◌<◌, ◌≡◌, refl, sym, inl, inr, true, false, Option, none, some, List, [], ◌∷◌, ◌++◌, arith,
  ◌==◌, ==→≡, Bool-cases, All,
}
use mathlib.Core.Path.{subst}
use cc2obp.Cccc.Link.{Env, Action, lst_down}
use cc2obp.Cccc.Connect.{start_link}
use cc2obp.Cccc.Mux.{CcMux, cccc_mux_new}
use cc2obp.Cccc.Pending.{n_link}
use cc2obp.Cccc.Traffic.{cccc_mux_start}
use cc2obp.Cccc.Steps.{Input, step, run}
use cc2obp.Cccc.Sound.{IsSound, tell_all, dials}
use cc2obp.Cccc.Sound.Handlers.{start_link-Fine}
use cc2obp.Cccc.Sound.Table.{
  AllSound, IsUnique, IsGood, up_at, IsGood-then, IsGood-nil, each_link-IsGood,
}
use cc2obp.Cccc.Sound.Runs.{step-IsGood}

-- The configuration of the run has the links of this one, dialled from the same side.
abbrev pub IsSameTable : Env → Env → Type 0
IsSameTable e0 e = (n_link e ≡ n_link e0) × ((i : ℕ) → dials e i ≡ dials e0 i)

moved : (e0 e : Env) (mx : CcMux) → IsSameTable e0 e → AllSound e0 mx → AllSound e mx
moved e0 e mx (n, d) s i small =
    subst (λ b. IsSound b (mx.links i)) (sym (d i)) (s i (subst (λ m. i < m) n small))

run-IsGood :
    (e0 : Env) (inputs : List (Env × Input)) (mx : CcMux)
    → All (λ ei. IsSameTable e0 ei.0) inputs
    → AllSound e0 mx
    → IsUnique (n_link e0) mx
    → IsGood e0 mx (run inputs mx)
unfolding run
run-IsGood e0 [] mx same s q = IsGood-nil e0 mx s q
run-IsGood e0 ((e, input) ∷ rest) mx (t, same) s q =
    let (s1, q1, t1) =
      step-IsGood e mx (moved e0 e mx t s) (subst (λ n. IsUnique n mx) (sym t.0) q) input in
    let r = step e input mx in
    let back : IsSameTable e e0 = (sym t.0, λ i. sym (t.1 i)) in
    let here : IsGood e0 mx r = (moved e e0 r.0 back s1, subst (λ n. IsUnique n r.0) t.0 q1, t1) in
    IsGood-then e0 mx r (run rest r.0) here (run-IsGood e0 rest r.0 same here.0 here.1)

new-AllSound : (e : Env) → AllSound e cccc_mux_new
unfolding cccc_mux_new
new-AllSound e i small = ground arith

new-IsUnique : (e : Env) → IsUnique (n_link e) cccc_mux_new
unfolding cccc_mux_new
new-IsUnique e i j si sj hi hj same = ground arith

-- The links before the start are down and hold nothing.
start-IsGood :
    (e : Env) (voice trial listen : Option ℕ)
    → IsGood e cccc_mux_new (cccc_mux_start e voice trial listen cccc_mux_new).1
unfolding cccc_mux_start cccc_mux_new tell_all
start-IsGood e none trial listen = (new-AllSound e, new-IsUnique e, λ j. refl)
start-IsGood e (some v) none listen = (new-AllSound e, new-IsUnique e, λ j. refl)
start-IsGood e (some v) (some t) none = (new-AllSound e, new-IsUnique e, λ j. refl)
start-IsGood e (some v) (some t) (some l) =
    each_link-IsGood e (start_link e) (λ lk. (lk.active ≡ false) × (lk.state ≡ lst_down)) (n_link e)
      0 _ (λ i j u lk ready sound. start_link-Fine e i j u lk sound ready.0 ready.1) (omega arith)
      (λ _ _. (refl, refl)) (new-AllSound e) (new-IsUnique e)

-- The CC-CC side after the sockets are bound, as far as they can be, and the given events.
unfoldable pub life :
    Env → Option ℕ → Option ℕ → Option ℕ → List (Env × Input) → CcMux × List Action
life e0 voice trial listen inputs =
    let started = (cccc_mux_start e0 voice trial listen cccc_mux_new).1 in
    let rest = run inputs started.0 in (rest.0, started.1 ++ rest.1)

module _ (e0 : Env) (voice trial listen : Option ℕ) (inputs : List (Env × Input))
    (same : All (λ ei. IsSameTable e0 ei.0) inputs) where
  life-IsGood : IsGood e0 cccc_mux_new (life e0 voice trial listen inputs)
  unfolding life
  life-IsGood =
      let started = (cccc_mux_start e0 voice trial listen cccc_mux_new).1 in
      let g = start-IsGood e0 voice trial listen in
      IsGood-then e0 cccc_mux_new started (run inputs started.0) g
        (run-IsGood e0 inputs started.0 same g.0 g.1)

  -- Through any run of the CC-CC side from its start, each link has its keepalive timer set exactly
  -- while it is up, and holds a sync source exactly from its handshake on. An outbound link that is
  -- active is on its way or up, or has its reconnect timer set, never both; one that is not is down
  -- with no such timer. An inbound link never dials. The configurations of the run have the links of
  -- the first, dialled from the same side.
  pub life-IsSound :
      (i : ℕ) → i < n_link e0 → IsSound (dials e0 i) ((life e0 voice trial listen inputs).0.links i)
  life-IsSound = life-IsGood.0

  -- Through any run of the CC-CC side from its start, no two links hold the same sync source. The
  -- configurations of the run have the links of the first, dialled from the same side.
  pub life-distinct :
      (i j : ℕ)
      → i < j
      → j < n_link e0
      → let links = (life e0 voice trial listen inputs).0.links in
        (links i).has_sync_source ≡ true
        → (links j).has_sync_source ≡ true
        → ((links i).sync_source == (links j).sync_source) ≡ false
  life-distinct i j less small hi hj =
      let unique = life-IsGood.1 i j (omega arith) small hi hj in
      elim (Bool-cases ((at_i i) == (at_i j))) [
        | inl same ↦ absurd (let eq = unique (==→≡ (at_i i) (at_i j) same) in omega arith)
        | inr other ↦ other
      ]
    where
      at_i : ℕ → ℕ
      at_i k = ((life e0 voice trial listen inputs).0.links k).sync_source

  -- Through any run of the CC-CC side from its start, translate.c is told of each link in turn that
  -- it is up and that it is down, beginning with up, and is handed call signals only while it is
  -- up, so that what it was told last is the state of the link. The configurations of the run have
  -- the links of the first, dialled from the same side.
  pub life-told :
      (j : ℕ)
      → tell_all j false (life e0 voice trial listen inputs).1
        ≡ some (up_at (life e0 voice trial listen inputs).0 j)
  unfolding cccc_mux_new
  life-told = life-IsGood.2
