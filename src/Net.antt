-- ===== src/Net.antt =====
-- The data of internal/netpolicy: types.go, openwrt.go, policy.go, evidence.go and verify.go.
pub mod Evidence
pub mod Verify
pub mod Fresh
pub mod Objects
pub mod Registry
pub mod Rules
pub mod Mutate
pub mod Distinct
pub mod Invariant
pub mod Resolve
pub mod Rebind
pub mod Trials
pub mod Samples
pub mod Dns
use pins.Prelude.{ℕ, ◌≡◌, refl, Bool, true, false, ◌&&◌, List, [], ◌∷◌, Option, none, some, ◌==◌}
use pins.Prelude.Int.{ℤ}
use pins.Go.Text.{Str, text_eq}
use pins.Go.Map.{Map}
use pins.Lease.Types.{Time}

-- `Ref`; a revision is a `uint64`.
pub record Ref : Type 0 where
  pub id : Str
  pub revision : ℕ

abbrev pub no_ref : Ref
no_ref = record { id = []; revision = 0 }

pub record BoundChain : Type 0 where
  pub family : Str
  pub table : Str
  pub chain : Str
  pub role : Str
  pub hook : Str
  pub priority : Option ℤ

pub record BoundSet : Type 0 where
  pub family : Str
  pub table : Str
  pub set_name : Str
  pub element_family : Str

pub record OpenWrtBinding : Type 0 where
  pub logical_network : Str
  pub profile : Str
  pub chains : List BoundChain
  pub destination_set : Option BoundSet
  pub stored_sections : List Str

pub record Binding : Type 0 where
  pub namespace : Str
  pub context : Str
  pub interface : Str
  pub ingress : Str
  pub address : Str
  pub peer : Str
  pub target : Str
  pub port : ℕ
  pub realm : Str
  pub protocol : Str
  pub transports : List Str
  pub access_modes : List Str
  pub gateway : Ref
  pub vpn : Ref
  pub source : Ref
  pub control : Ref
  pub nft_family : Str
  pub nft_table : Str
  pub nft_chain : Str
  pub require_path : Bool
  pub fail_closed : Bool
  pub open_wrt : Option OpenWrtBinding

abbrev pub no_binding : Binding
no_binding = record {
  namespace = [];
  context = [];
  interface = [];
  ingress = [];
  address = [];
  peer = [];
  target = [];
  port = 0;
  realm = [];
  protocol = [];
  transports = [];
  access_modes = [];
  gateway = no_ref;
  vpn = no_ref;
  source = no_ref;
  control = no_ref;
  nft_family = [];
  nft_table = [];
  nft_chain = [];
  require_path = false;
  fail_closed = false;
  open_wrt = none;
}

pub data Kind : Type 0 where
  gateway network vpn service : Kind

pub record Object : Type 0 where
  pub ref : Ref
  pub kind : Kind
  pub alias : Str
  pub binding : Binding

pub record Tuple : Type 0 where
  pub source : Ref
  pub endpoint : Ref
  pub realm : Str
  pub family : Str
  pub transport : Str
  pub port : ℕ
  pub mode : Str

pub record Rule : Type 0 where
  pub ref : Ref
  pub alias : Str
  pub decision : Str
  pub tuples : List Tuple
  pub path : Ref
  pub fail_closed : Bool
  pub filtering : Bool

pub record ResolvedTuple : Type 0 where
  pub tuple : Tuple
  pub policy : Ref
  pub decision : Str
  pub path : Ref
  pub fail_closed : Bool
  pub filtering : Bool

pub record ObservationRequest : Type 0 where
  pub operation : Str
  pub target : Ref
  pub source : Ref
  pub objects : List Ref
  pub policies : List Ref
  pub tuples : List Tuple
  pub required : List Str
  pub tuple_required : Map (List Str)
  pub metadata_digest : Str

pub record ObserverWindow : Type 0 where
  pub target : Ref
  pub start : Time
  pub end_time : Time
  pub complete : Bool

pub record Fact : Type 0 where
  pub id : Str
  pub property : Str
  pub target : Ref
  pub tuple : Option Tuple
  pub value : Bool
  pub scope : List Ref
  pub policies : List Ref
  pub observed_at : Time
  pub valid_until : Time
  pub window_start : Time
  pub window_end : Time
  pub assurance : Str
  pub runtime_binding : Str
  pub observer_windows : List ObserverWindow
  pub historical_assessment : Str
  pub validated : Bool

pub data Verdict : Type 0 where
  verified violated unverified : Verdict

-- `PropertyResult.State`
pub data ResultState : Type 0 where
  missing contradicted pass : ResultState

pub record PropertyResult : Type 0 where
  pub property : Str
  pub tuple : Option Tuple
  pub state : ResultState
  pub evidence : List Str
  pub assurance : List Str

pub record DisplayContext : Type 0 where
  pub source : Str
  pub target : Str
  pub vpn : Str

pub record Assessment : Type 0 where
  pub id : Str
  pub context : DisplayContext
  pub execution_grant_id : Str
  pub verdict : Verdict
  pub request : ObservationRequest
  pub properties : List PropertyResult
  pub missing : List Str
  pub excluded : List Str
  pub evidence : List Fact
  pub created_at : Time
  pub cleanup : Bool
  pub synthetic : Bool

-- What comes from outside of the program: `hashJSON` of the values that it is used on (JSON and
-- SHA-256), and whether `netip.ParseAddr` gives an address, and one of IPv4.
pub record NetEnv : Type 0 where
  pub hash_ref : Ref → Str
  pub hash_tuple : Tuple → Str
  pub hash_chain : BoundChain → Str
  pub hash_realm : Ref → Str → Str
  pub parse_addr : Str → Option Bool

-- `==` of two `Ref`, of two `Tuple`, and of what two pointers to a `Tuple` point to.
unfoldable pub ref_eq : Ref → Ref → Bool
ref_eq a b = text_eq a.id b.id && a.revision == b.revision

unfoldable pub tuple_eq : Tuple → Tuple → Bool
tuple_eq a b =
    ref_eq a.source b.source
    && ref_eq a.endpoint b.endpoint
    && text_eq a.realm b.realm
    && text_eq a.family b.family
    && text_eq a.transport b.transport
    && a.port == b.port
    && text_eq a.mode b.mode

unfoldable pub scope_eq : Option Tuple → Option Tuple → Bool
scope_eq none none = true
scope_eq (some a) (some b) = tuple_eq a b
scope_eq _ _ = false

-- The errors of types.go.
pub data NetError : Type 0 where
  invalid unsafe unknown stale conflict unsupported : NetError

-- A value and an error: with an error the caller ignores the value.
pub data Result {ℓ} (T : Type ℓ) : Type ℓ where
  fail : NetError → Result T
  ok : T → Result T

infixl 5 ◌>>=◌
abbrev pub ◌>>=◌ {ℓ κ} : {S : Type ℓ} {T : Type κ} → Result S → (S → Result T) → Result T
fail e >>= k = fail e
ok a >>= k = k a

-- `if !b { return e }`
abbrev pub demand {ℓ} : {T : Type ℓ} → Bool → NetError → Result T → Result T
demand true e rest = rest
demand false e rest = fail e

pub record RegistryState : Type 0 where
  pub schema : ℕ
  pub objects : List Object
  pub policies : List Rule

-- What a value without an error says of the parts of a call.
pub ok_cases {ℓ κ τ} :
    {S : Type ℓ} {T : Type κ} {C : Type τ} (m : Result S) (k : S → Result T) {t : T}
    → m >>= k ≡ ok t
    → ((a : S) → m ≡ ok a → k a ≡ ok t → C)
    → C
ok_cases (fail e) k h next = absurd (cc h)
ok_cases (ok a) k h next = next a refl h

pub demand_cases {ℓ τ} :
    {T : Type ℓ} {C : Type τ} (b : Bool) (e : NetError) (rest : Result T) {t : T}
    → demand b e rest ≡ ok t
    → (b ≡ true → rest ≡ ok t → C)
    → C
demand_cases true e rest h next = next refl h
demand_cases false e rest h next = absurd (cc h)
