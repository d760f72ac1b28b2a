-- ===== src/Config/Reload/Toggles.antt =====
-- config.c: a reload takes the toggles from the file, by name, and changes nothing else.
use cc2obp.Common.{
  ℕ, ◌≡◌, ◌≢◌, refl, ◌⊎◌, inl, inr, Bool, true, false, Option, none, some, List, [], ◌∷◌,
  Bool-cases,
}
use cc2obp.Wire.{same_bytes, same_bytes→≡, same_bytes→≢}
use cc2obp.Config.{ObpPeerConfig, LinkConfig, Config}
use cc2obp.Config.Reload.{
  reload_peer, reload_link, reload_peers, reload_links, config_reload_toggles,
}

module _ {A : Type 0} where
  -- The first entry of a list with this name, if there is one.
  abbrev pub IsFirst : (A → List ℕ) → List ℕ → List A → Option A → Type 0
  IsFirst name_of name [] found = found ≡ none
  IsFirst name_of name (f ∷ fs) found =
      ((name ≡ name_of f) × (found ≡ some f)) ⊎ ((name ≢ name_of f) × IsFirst name_of name fs found)

  -- Two lists of one length, entry by entry.
  abbrev pub AllPairs : (A → A → Type 0) → List A → List A → Type 0
  AllPairs R [] [] = Unit
  AllPairs R [] (y ∷ ys) = ⊥
  AllPairs R (x ∷ xs) [] = ⊥
  AllPairs R (x ∷ xs) (y ∷ ys) = R x y × AllPairs R xs ys

-- An entry after a reload: its toggles are those of the first entry of the file with its name, or
-- its own if there is none, and the rest is its own.
abbrev pub IsPeerReload : List ObpPeerConfig → ObpPeerConfig → ObpPeerConfig → Type 0
IsPeerReload fs o after =
    (found : Option ObpPeerConfig) × IsFirst (λ f. f.name) o.name fs found
    × (after ≡ elim found [ none ↦ o | some f ↦ record o { enabled = f.enabled } ])

abbrev pub IsLinkReload : List LinkConfig → LinkConfig → LinkConfig → Type 0
IsLinkReload fs l after =
    (found : Option LinkConfig) × IsFirst (λ f. f.name) l.name fs found
    × (after ≡ elim found [
      | none ↦ l
      | some f ↦ record l { enabled = f.enabled; cross_connect_active = f.cross_connect_active }
    ])

reload_peer-IsPeerReload :
    (o : ObpPeerConfig) (fs : List ObpPeerConfig) → IsPeerReload fs o (reload_peer o fs)
unfolding reload_peer
reload_peer-IsPeerReload o [] = (none, refl, refl)
reload_peer-IsPeerReload o (f ∷ fs) = elim (Bool-cases (same_bytes o.name f.name)) [
  | inl same ↦ (some f, inl (same_bytes→≡ o.name f.name same, refl), rw same refl)
  | inr differs ↦
      let (found, first, after) = reload_peer-IsPeerReload o fs in
      (found, inr (same_bytes→≢ o.name f.name differs, first), rw differs after)
]

reload_link-IsLinkReload :
    (l : LinkConfig) (fs : List LinkConfig) → IsLinkReload fs l (reload_link l fs)
unfolding reload_link
reload_link-IsLinkReload l [] = (none, refl, refl)
reload_link-IsLinkReload l (f ∷ fs) = elim (Bool-cases (same_bytes l.name f.name)) [
  | inl same ↦ (some f, inl (same_bytes→≡ l.name f.name same, refl), rw same refl)
  | inr differs ↦
      let (found, first, after) = reload_link-IsLinkReload l fs in
      (found, inr (same_bytes→≢ l.name f.name differs, first), rw differs after)
]

reload_peers-AllPairs :
    (os fs : List ObpPeerConfig) → AllPairs (IsPeerReload fs) os (reload_peers os fs)
reload_peers-AllPairs [] fs = tt
reload_peers-AllPairs (o ∷ os) fs = (reload_peer-IsPeerReload o fs, reload_peers-AllPairs os fs)

reload_links-AllPairs :
    (ls fs : List LinkConfig) → AllPairs (IsLinkReload fs) ls (reload_links ls fs)
reload_links-AllPairs [] fs = tt
reload_links-AllPairs (l ∷ ls) fs = (reload_link-IsLinkReload l fs, reload_links-AllPairs ls fs)

-- The configuration without its tables.
abbrev pub without_tables : Config → Config
without_tables cfg = record cfg { openbridge = []; link = [] }

-- The configuration after a reload, and whether the call returns 0.
abbrev pub IsReload : Option Config → Config → Config × Bool → Type 0
IsReload none cfg r = r ≡ (cfg, false)
IsReload (some fresh) cfg r =
    (r.1 ≡ true)
    × (without_tables r.0 ≡ without_tables cfg)
    × AllPairs (IsPeerReload fresh.openbridge) cfg.openbridge r.0.openbridge
    × AllPairs (IsLinkReload fresh.link) cfg.link r.0.link

-- A reload of a file that is refused changes nothing and fails. Any other reload succeeds: each peer and
-- each link takes the toggles of the first entry of the file with its name, or keeps its own if
-- there is none, and all else stays, the order and number of entries and the other settings
-- included.
pub config_reload_toggles-IsReload :
    (file : Option Config) (cfg : Config) → IsReload file cfg (config_reload_toggles file cfg)
unfolding config_reload_toggles
config_reload_toggles-IsReload none cfg = refl
config_reload_toggles-IsReload (some fresh) cfg = (
  refl,
  refl,
  reload_peers-AllPairs cfg.openbridge fresh.openbridge,
  reload_links-AllPairs cfg.link fresh.link,
)
