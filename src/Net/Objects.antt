-- ===== src/Net/Objects.antt =====
-- `validObject` of internal/netpolicy/types.go, and `validOpenWrt` and `cloneObject` of openwrt.go.
use pins.Prelude.{
  ℕ, Bool, true, false, not, ◌&&◌, ◌||◌, List, [], ◌∷◌, ◌++◌, Option, none, some, leb, ◌==◌, all,
  length, is_some, map, if◌then◌else◌,
}
use pins.Go.Text.{Str, codes, text_eq, member, is_empty}
use pins.Go.Sort.{sort_by}
use pins.Net.{
  Binding, BoundChain, BoundSet, OpenWrtBinding, Kind, gateway, network, service, Object, NetEnv,
}

abbrev in_range : ℕ → ℕ → ℕ → Bool
in_range low high c = leb low c && leb c high

abbrev lower : ℕ → Bool
lower c = in_range 97 122 c

abbrev letter : ℕ → Bool
letter c = lower c || in_range 65 90 c

abbrev digit : ℕ → Bool
digit c = in_range 48 57 c

-- A first byte, and at most so many others.
abbrev shaped : (ℕ → Bool) → (ℕ → Bool) → ℕ → Str → Bool
shaped first other most [] = false
shaped first other most (c ∷ s) = first c && leb (length s) most && all other s

-- `namePattern`
unfoldable pub name_ok : Str → Bool
name_ok s = shaped lower (λ c. lower c || digit c || c == 45) 63 s

-- `nativePattern`
unfoldable pub native_ok : Str → Bool
native_ok s =
    shaped (λ c. letter c || digit c || c == 95)
      (λ c. letter c || digit c || c == 95 || c == 46 || c == 45) 63 s

-- `openWrtName`
unfoldable pub open_wrt_name_ok : Str → Bool
open_wrt_name_ok s = shaped (λ c. letter c || c == 95) (λ c. letter c || digit c || c == 95) 47 s

-- Nothing occurs twice, as a loop with a map `seen` asks.
unfoldable pub all_new : List Str → List Str → Bool
all_new seen [] = true
all_new seen (s ∷ rest) = not (member s seen) && all_new (s ∷ seen) rest

abbrev pub distinct : List Str → Bool
distinct names = all_new [] names

abbrev family_ok : Str → Bool
family_ok s = text_eq s (codes "ip") || text_eq s (codes "ip6") || text_eq s (codes "inet")

-- `openWrtChainKey`
unfoldable pub chain_key : BoundChain → Str
chain_key c = c.family ++ (codes ":" ++ (c.table ++ (codes ":" ++ c.chain)))

-- A round of the loop over the chains, but for its key.
unfoldable pub chain_ok : BoundChain → Bool
chain_ok c =
    let bare = is_empty c.hook in
    let forward = text_eq c.hook (codes "forward") in
    let classifier = text_eq c.role (codes "classifier") in
    let forwarding = text_eq c.role (codes "forwarding") in
    family_ok c.family
    && open_wrt_name_ok c.table
    && open_wrt_name_ok c.chain
    && (if is_some c.priority then not bare else bare)
    && (bare || text_eq c.hook (codes "prerouting") || forward || text_eq c.hook (codes "output"))
    && (classifier || forwarding || text_eq c.role (codes "guard"))
    && not ((classifier && forward) || (forwarding && (not bare && not forward)))

unfoldable pub set_ok : BoundSet → Bool
set_ok s =
    let four = text_eq s.element_family (codes "ipv4") in
    let six = text_eq s.element_family (codes "ipv6") in
    open_wrt_name_ok s.table
    && open_wrt_name_ok s.set_name
    && family_ok s.family
    && (four || six)
    && not
        ((text_eq s.family (codes "ip") && not four) || (text_eq s.family (codes "ip6") && not six))

abbrev set_absent_or_ok : Option BoundSet → Bool
set_absent_or_ok none = true
set_absent_or_ok (some s) = set_ok s

-- `validOpenWrt`, past its first test
unfoldable pub open_wrt_ok : Kind → Binding → OpenWrtBinding → Bool
open_wrt_ok network b s =
    open_wrt_name_ok s.logical_network
    && is_empty s.profile
    && is_empty s.chains
    && not (is_some s.destination_set)
    && is_empty s.stored_sections
    && not (is_empty b.gateway.id)
open_wrt_ok gateway b s =
    (is_empty s.logical_network || open_wrt_name_ok s.logical_network)
    && leb (length s.profile) 48
    && leb (length s.chains) 8
    && leb (length s.stored_sections) 8
    && all chain_ok s.chains
    && distinct (map chain_key s.chains)
    && all open_wrt_name_ok s.stored_sections
    && distinct s.stored_sections
    && set_absent_or_ok s.destination_set
open_wrt_ok _ b s = false

unfoldable pub valid_open_wrt : Object → Bool
valid_open_wrt o = elim (o.binding.open_wrt) [
  | none ↦ true
  | some s ↦ open_wrt_ok o.kind o.binding s
]

abbrev absent_or : (Str → Bool) → Str → Bool
absent_or test s = is_empty s || test s

abbrev service_ok : Kind → Binding → Bool
service_ok service b = not (is_empty b.target) && not (b.port == 0) && not (is_empty b.realm)
service_ok _ b = true

module _ (env : NetEnv) where
  -- `validObject`
  unfoldable pub valid_object : Object → Bool
  valid_object o =
      let b = o.binding in
      name_ok o.alias
      && all (absent_or native_ok)
          (b.namespace ∷ b.interface ∷ b.ingress ∷ b.nft_table ∷ b.nft_chain ∷ b.realm ∷ [])
      && leb (length b.context) 128
      && leb (length b.interface) 15
      && leb (length b.peer) 128
      && absent_or family_ok b.nft_family
      && all (absent_or (λ s. is_some (env.parse_addr s))) (b.address ∷ b.target ∷ [])
      && service_ok o.kind b
      && all (λ s. text_eq s (codes "direct") || text_eq s (codes "mediated")) b.access_modes
      && distinct b.access_modes
      && all (λ s. text_eq s (codes "udp") || text_eq s (codes "tcp")) b.transports
      && absent_or (λ s. text_eq s (codes "wireguard") || text_eq s (codes "dns")) b.protocol
      && valid_open_wrt o

  -- `cloneBinding`: the chains and the stored sections are put in order.
  unfoldable pub clone_open_wrt : OpenWrtBinding → OpenWrtBinding
  clone_open_wrt s = record s {
    chains = sort_by env.hash_chain s.chains;
    stored_sections = sort_by (λ section. section) s.stored_sections;
  }

  unfoldable pub clone_binding : Binding → Binding
  clone_binding b = elim (b.open_wrt) [
    | none ↦ b
    | some s ↦ record b { open_wrt = some (clone_open_wrt s) }
  ]

  -- `cloneObject`
  unfoldable pub clone_object : Object → Object
  clone_object o = record o { binding = clone_binding o.binding }
