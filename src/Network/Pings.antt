-- ===== src/Network/Pings.antt =====
-- The primary addresses of a running host and the target of a ping in
-- src/p4net/network/nodes.py, and `pingall` and `pingall6` of src/p4net/network/orchestrator.py. The
-- `ping` process is a parameter: from a host, to an address, over IPv6 or not.
use p4net.Base.{Bool, true, false, ◌||◌, Option, none, some, List, [], ◌∷◌, if◌then◌else◌, ◌==◌}
use p4net.Base.Text.{Text, text_eq, has}
use p4net.Base.Dict.{pair_eq, text_eq_instance, Dict, insert}

pub record RunningHost : Type 0 where
  pub name : Text
  pub interfaces : Dict Text (Option Text)
  pub interfaces6 : Dict Text (Option Text)

unfoldable pub strip_mask : Text → Text
strip_mask [] = []
strip_mask (c ∷ s) = let rest = strip_mask s in if c == b'/' then [] else c ∷ rest

-- The first address that is given and not empty, without its mask.
unfoldable pub first_address : Dict Text (Option Text) → Option Text
unfolding strip_mask
first_address [] = none
first_address ((iface, none) ∷ d) = first_address d
first_address ((iface, some []) ∷ d) = first_address d
first_address ((iface, some (c ∷ s)) ∷ d) = some (strip_mask (c ∷ s))

abbrev pub primary_ip : RunningHost → Option Text
primary_ip h = first_address h.interfaces

abbrev pub primary_ip6 : RunningHost → Option Text
primary_ip6 h = first_address h.interfaces6

-- The address of a host that is pinged: its IPv4 address comes first, unless IPv6 is forced.
unfoldable pub target_of : Bool → RunningHost → Option Text
unfolding first_address
target_of true h = primary_ip6 h
target_of false h = elim (primary_ip h) [ some a ↦ some a | none ↦ primary_ip6 h ]

-- A colon makes it IPv6.
unfoldable pub is_v6 : Bool → Text → Bool
is_v6 force target = force || has b':' target

abbrev truthy : Option Text → Bool
truthy none = false
truthy (some []) = false
truthy (some (c ∷ s)) = true

unfoldable pub eligible : (RunningHost → Option Text) → List RunningHost → List RunningHost
eligible primary [] = []
eligible primary (h ∷ hs) =
    let rest = eligible primary hs in if truthy (primary h) then h ∷ rest else rest

abbrev pub Results : Type 0
Results = Dict (Text × Text) Bool

module _ {S : Type 0} (ping : Text → Text → Bool → S → S × Bool) where
  -- A host without an address is not pinged.
  abbrev ping_host : Bool → RunningHost → RunningHost → S × Results → S × Results
  ping_host force src dst (s, results) = elim (target_of force dst) [
    | none ↦ (s, results)
    | some target ↦
        let answer = ping src.name target (is_v6 force target) s in
        (answer.0, insert (src.name, dst.name) answer.1 results)
  ]

  unfoldable pub ping_from : Bool → RunningHost → List RunningHost → S × Results → S × Results
  unfolding target_of is_v6
  ping_from force src [] state = state
  ping_from force src (dst ∷ dsts) state =
      ping_from force src dsts
        (if text_eq src.name dst.name then state else ping_host force src dst state)

  unfoldable pub ping_every : Bool → List RunningHost → List RunningHost → S × Results → S × Results
  unfolding ping_from
  ping_every force [] dsts state = state
  ping_every force (src ∷ srcs) dsts state =
      ping_every force srcs dsts (ping_from force src dsts state)

  unfoldable pub pingall : List RunningHost → S → S × Results
  unfolding eligible ping_every
  pingall hosts s = ping_every false (eligible primary_ip hosts) (eligible primary_ip hosts) (s, [])

  unfoldable pub pingall6 : List RunningHost → S → S × Results
  unfolding eligible ping_every
  pingall6 hosts s =
      ping_every true (eligible primary_ip6 hosts) (eligible primary_ip6 hosts) (s, [])
