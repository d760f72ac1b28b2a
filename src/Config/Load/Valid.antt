-- ===== src/Config/Load/Valid.antt =====
-- config.c: what an entry without errors holds.
use cc2obp.Common.{
  ℕ, zero, suc, ◌+◌, ◌≤◌, Bool-cases, Option-cases, false, ◌⊎◌, inl, inr, ◌≡◌, refl, Bool, true,
  ◌||◌, Option, none, some, List, [], ◌∷◌, ◌++◌, arith, concat,
}
use cc2obp.Wire.{same_bytes}
use cc2obp.Cccc.Const.{codes}
use cc2obp.Config.{CcRole, outbound, inbound, ObpPeerConfig, LinkConfig}
use cc2obp.Config.Fields.{Section, get_int}
use cc2obp.Config.Load.{
  Errors, no_text, check_address, read_remote_port, system_errors, find_openbridge, load_peer,
  load_link,
}

abbrev pub IsPort : ℕ → Type 0
IsPort p = (1 ≤ p) × (p ≤ 65535)

-- An outbound link has a port to dial, and an inbound link has none.
abbrev pub IsDialled : CcRole → Option ℕ → Type 0
IsDialled outbound port = (p : ℕ) × (port ≡ some p) × IsPort p
IsDialled inbound port = port ≡ none

append-none : {A : Type 0} (xs ys : List A) → xs ++ ys ≡ [] → (xs ≡ []) × (ys ≡ [])
append-none [] ys h = (refl, h)
append-none (x ∷ xs) ys h = absurd (ground arith)

-- Each list of a list is empty.
abbrev pub AllNone : List Errors → Type 0
AllNone [] = Unit
AllNone (xs ∷ xss) = (xs ≡ []) × AllNone xss

pub concat-AllNone : (xss : List Errors) → concat xss ≡ [] → AllNone xss
concat-AllNone [] h = tt
concat-AllNone (xs ∷ xss) h =
    let (first, rest) = append-none xs (concat xss) h in (first, concat-AllNone xss rest)

get_int-IsPort :
    (t : Section) (key : List ℕ)
    → (get_int t key true 0 1 (some 65535)).1 ≡ []
    → IsPort (get_int t key true 0 1 (some 65535)).0
unfolding get_int
get_int-IsPort t key h = ground arith

read_remote_port-IsDialled :
    (t : Section) (role : CcRole)
    → (read_remote_port t role).1 ≡ []
    → IsDialled role (read_remote_port t role).0
read_remote_port-IsDialled t inbound h = refl
read_remote_port-IsDialled t outbound h = (_, refl, get_int-IsPort t (codes "cc_remote_port") h)

-- The peer at an index has this name, and none before it has.
abbrev pub IsFirstNamed : List ℕ → List ObpPeerConfig → ℕ → Type 0
IsFirstNamed name [] j = ⊥
IsFirstNamed name (o ∷ os) zero = same_bytes o.name name ≡ true
IsFirstNamed name (o ∷ os) (suc j) = (same_bytes o.name name ≡ false) × IsFirstNamed name os j

-- An index of the first peer of this name, if the name is not empty.
abbrev pub IsKnownSystem : List ℕ → List ObpPeerConfig → Option ℕ → Type 0
IsKnownSystem system peers idx =
    (no_text system ≡ true) ⊎ ((j : ℕ) × (idx ≡ some j) × IsFirstNamed system peers j)

find_openbridge-IsFirstNamed :
    (name : List ℕ) (i k : ℕ) (peers : List ObpPeerConfig)
    → find_openbridge name i peers ≡ some k
    → (j : ℕ) × (k ≡ i + j) × IsFirstNamed name peers j
unfolding find_openbridge
find_openbridge-IsFirstNamed name i k [] h = absurd (ground arith)
find_openbridge-IsFirstNamed name i k (o ∷ os) h = elim (Bool-cases (same_bytes o.name name)) [
  | inl same ↦ (0, ground arith, same)
  | inr differs ↦
      let later : find_openbridge name (i + 1) os ≡ some k = ground arith in
      let (j, at, rest) = find_openbridge-IsFirstNamed name (i + 1) k os later in
      (suc j, ground arith, (differs, rest))
]

system_errors-IsKnownSystem :
    (system : List ℕ) (peers : List ObpPeerConfig)
    → system_errors system (find_openbridge system 0 peers) ≡ []
    → IsKnownSystem system peers (find_openbridge system 0 peers)
system_errors-IsKnownSystem system peers h = elim (Bool-cases (no_text system)) [
  | inl same ↦ inl same
  | inr differs ↦ elim (Option-cases (find_openbridge system 0 peers)) [
    | inl none_found ↦ absurd (ground arith)
    | inr (k, found) ↦
        let (j, at, first) = find_openbridge-IsFirstNamed system 0 k peers found in
        let index : find_openbridge system 0 peers ≡ some j = ground arith in inr (j, index, first)
  ]
]

module _ (is_valid_ipv4 : List ℕ → Bool) where
  -- The text is empty, or an address.
  abbrev pub IsAddress : List ℕ → Type 0
  IsAddress ip = (no_text ip || is_valid_ipv4 ip) ≡ true

  check_address-IsAddress :
      (key ip : List ℕ) → check_address is_valid_ipv4 key ip ≡ [] → IsAddress ip
  check_address-IsAddress key ip h = ground arith

  abbrev pub IsValid : List ObpPeerConfig → LinkConfig → Type 0
  IsValid peers l =
      IsPort l.cc_remote_voice_port
      × IsDialled l.cc_role l.cc_remote_port
      × IsAddress l.cc_remote_ip
      × IsKnownSystem l.openbridge_system peers l.openbridge_idx

  -- An entry of `[[link]]` that is read without an error has a voice port from 1 to 65535, such a port
  -- to dial if it is outbound and none if it is inbound, a remote address that is valid or empty,
  -- and the index of the first peer that has the name it gives, unless that name is empty.
  pub load_link-IsValid :
      (peers : List ObpPeerConfig) (t : Section)
      → concat (load_link is_valid_ipv4 peers t).1 ≡ []
      → IsValid peers (load_link is_valid_ipv4 peers t).0
  unfolding load_link
  load_link-IsValid peers t h =
      let (_, (_, (_, (_, (_, (peer, (_, (_, (_, (address, (port, (voice, _)))))))))))) =
        concat-AllNone (load_link is_valid_ipv4 peers t).1 h in
      (
        get_int-IsPort t (codes "cc_remote_voice_port") voice,
        read_remote_port-IsDialled t _ port,
        check_address-IsAddress (codes "cc_remote_ip") _ address,
        system_errors-IsKnownSystem _ peers peer,
      )

  -- Both ports are ports, and the address is one or empty.
  abbrev pub IsValidPeer : ObpPeerConfig → Type 0
  IsValidPeer o = IsPort o.peer_port × IsPort o.bind_port × IsAddress o.peer_ip

  pub load_peer-IsValidPeer :
      (t : Section)
      → concat (load_peer is_valid_ipv4 t).1 ≡ []
      → IsValidPeer (load_peer is_valid_ipv4 t).0
  unfolding load_peer
  load_peer-IsValidPeer t h =
      let (_, (_, (_, (address, (peer, (bind, _)))))) =
        concat-AllNone (load_peer is_valid_ipv4 t).1 h in
      (
        get_int-IsPort t (codes "peer_port") peer,
        get_int-IsPort t (codes "bind_port") bind,
        check_address-IsAddress (codes "peer_ip") _ address,
      )
