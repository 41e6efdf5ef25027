-- ===== src/Network/Resources.antt =====
-- The resources that a network holds by its log of calls, and that it keeps track of.
use p4net.Base.{◌≡◌, Bool, true, false, not, ◌&&◌, ◌||◌, List, [], ◌∷◌, if◌then◌else◌}
use p4net.Base.Text.{Text, text_eq}
use p4net.Network.Calls.{
  Call, create_namespace, destroy_namespace, namespace_exists, create_veth, destroy_veth,
  start_bmv2, stop_bmv2, connect_client, disconnect_client, Answer, declined, raised, Log, Net,
  in_keys, has_raised,
}

pub data Resource : Type 0 where
  a_namespace a_process a_client : Text → Resource
  a_veth : Text → Text → Resource

abbrev pub same_pair : Text → Text → Text → Text → Bool
same_pair a b c d = text_eq a c && text_eq b d

-- The call, if it returns, creates the resource.
unfoldable pub creates : Call → Resource → Bool
creates (create_namespace k) (a_namespace j) = text_eq k j
creates (create_veth a b x y) (a_veth c d) = same_pair a b c d
creates (start_bmv2 s) (a_process j) = text_eq s.name j
creates (connect_client k now) (a_client j) = text_eq k j
creates _ _ = false

-- The call gives the resource up, whether it raises or not; a namespace also where the question
-- whether it exists is not answered by a yes.
unfoldable pub gives_up : Call → Answer → Resource → Bool
gives_up (destroy_namespace k) a (a_namespace j) = text_eq k j
gives_up (namespace_exists k) declined (a_namespace j) = text_eq k j
gives_up (namespace_exists k) raised (a_namespace j) = text_eq k j
gives_up (destroy_veth a b) x (a_veth c d) = same_pair a b c d
gives_up (stop_bmv2 k) a (a_process j) = text_eq k j
gives_up (disconnect_client k) a (a_client j) = text_eq k j
gives_up _ _ _ = false

-- The resource was created, and nothing has given it up since.
unfoldable pub is_held : Resource → Log → Bool
unfolding creates gives_up has_raised
is_held r [] = false
is_held r ((c, a) ∷ log) =
    let before = is_held r log in
    if creates c r && not (has_raised a) then true else if gives_up c a r then false else before

unfoldable pub in_pairs : Text → Text → List (Text × Text) → Bool
in_pairs a b [] = false
in_pairs a b ((c, d) ∷ ps) = same_pair c d a b || in_pairs a b ps

unfoldable pub is_tracked : Resource → Net → Bool
unfolding in_keys in_pairs
is_tracked (a_namespace k) n = in_keys k n.namespaces
is_tracked (a_process k) n = in_keys k n.switches
is_tracked (a_client k) n = in_keys k n.clients
is_tracked (a_veth a b) n = in_pairs a b n.veths

-- Every resource that is held is tracked.
unfoldable pub Tracks : Net → Type 0
Tracks n = (r : Resource) → is_held r n.log ≡ true → is_tracked r n ≡ true
