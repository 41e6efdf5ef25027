-- ===== src/Topo/Restore/RoundTrip.antt =====
-- Writing a topology by `to_dict` and reading it by `from_dict`.
use p4net.Base.{◌≡◌, refl, sym, ap, ◌∙◌, false, List, [], ◌∷◌, ◌++◌, All, ok, arith}
use p4net.Base.Text.{Text, text_eq, text_eq_iff}
use p4net.Base.Dict.{text_eq_instance, Dict, contains, insert, contains-insert, insert_fresh}
use p4net.Topo.Nodes.{Host, P4Switch}
use p4net.Topo.Link.{Link}
use p4net.Topo.Topology.{Topology}
use p4net.Topo.Topology.Invariant.{HostEntry, LinkAssigned, WellFormed}
use p4net.Topo.Topology.Invariant.Steps.{Built, Built-WellFormed}
use p4net.Topo.Render.{
  Json, host_to_dict, switch_to_dict, link_to_dict, fields_of_dict, items_of, to_dict,
}
use p4net.Topo.Payload.{Restored, get}
use p4net.Topo.Restore.{restore_host, restore_switch, restore_entries, restore_links, from_dict}
use p4net.Topo.Restore.Entries.{host_again, switch_again, link_again}
use p4net.Topo.Restore.Built.{KeysDiffer, SwitchAgain, EndsAgain, Built-IsRestorable}

-- No key of the second dict is one of the first.
abbrev Apart : {V : Type 0} → Dict Text V → Dict Text V → Type 0
Apart out d = All (λ entry. contains entry.0 out ≡ false) d

insert-Apart :
    {V : Type 0} (k : Text) (v : V) (out d : Dict Text V)
    → contains k d ≡ false
    → Apart out d
    → Apart (insert k v out) d
unfolding contains
insert-Apart k v out [] free h = tt
insert-Apart k v out ((j, w) ∷ d) free h = (
  ground (arith, free, h.0, contains-insert k j v out, text_eq_iff k j, text_eq_iff j k),
  insert-Apart k v out d (ground (arith, free)) h.1,
)

append_none : {A : Type 0} (xs : List A) → xs ++ [] ≡ xs
append_none [] = refl
append_none (x ∷ xs) = ap (λ l. x ∷ l) (append_none xs)

append_one : {A : Type 0} (a : A) (xs ys : List A) → (xs ++ (a ∷ [])) ++ ys ≡ xs ++ (a ∷ ys)
append_one a [] ys = refl
append_one a (x ∷ xs) ys = ap (λ l. x ∷ l) (append_one a xs ys)

-- A dict whose values are read back as they were is read back behind the entries already there.
entries_again :
    {V : Type 0} (write : V → Json) (read : Json → Restored V) (out d : Dict Text V)
    → KeysDiffer d
    → Apart out d
    → All (λ entry. read (write entry.1) ≡ ok entry.1) d
    → restore_entries read (fields_of_dict write d) out ≡ ok (out ++ d)
unfolding restore_entries
entries_again write read out [] differ apart again = ap ok (sym (append_none out))
entries_again write read out ((k, v) ∷ d) differ apart again =
    rw (restore_entries, again.0)
      (entries_again write read (insert k v out) d differ.1
          (insert-Apart k v out d differ.0 apart.1) again.1
        ∙ ap ok (ap (λ o. o ++ d) (insert_fresh k v out apart.0) ∙ append_one (k, v) out d))

empty-Apart : {V : Type 0} (d : Dict Text V) → Apart [] d
unfolding contains
empty-Apart [] = tt
empty-Apart (entry ∷ d) = (refl, empty-Apart d)

hosts_again :
    (d : Dict Text Host)
    → All HostEntry d
    → All (λ entry. restore_host (host_to_dict entry.1) ≡ ok entry.1) d
unfolding HostEntry
hosts_again [] h = tt
hosts_again ((name, host) ∷ d) h = (host_again host h.0.1, hosts_again d h.1)

-- `Path(str(path))` gives the path of every switch back.
abbrev pub PathsAgain : (Text → Text) → (Text → Text) → Topology → Type 0
PathsAgain str_path make_path t =
    All (λ entry. make_path (str_path (P4Switch.p4_src entry.1)) ≡ P4Switch.p4_src entry.1)
      (Topology.switches t)

switches_again :
    (str_path make_path : Text → Text) (d : Dict Text P4Switch)
    → All (λ entry. make_path (str_path (P4Switch.p4_src entry.1)) ≡ P4Switch.p4_src entry.1) d
    → All SwitchAgain d
    → All (λ entry. restore_switch make_path (switch_to_dict str_path entry.1) ≡ ok entry.1) d
switches_again str_path make_path [] paths h = tt
switches_again str_path make_path ((name, s) ∷ d) paths h =
    (switch_again str_path make_path s paths.0 h.0, switches_again str_path make_path d paths.1 h.1)

links_again :
    (t : Topology) (ls : List Link)
    → All EndsAgain ls
    → All (LinkAssigned t) ls
    → restore_links (items_of link_to_dict ls) ≡ ok ls
unfolding restore_links LinkAssigned
links_again t [] ends h = refl
links_again t (l ∷ ls) ends h =
    rw (restore_links, link_again l ends.0 h.0.2, links_again t ls ends.1 h.1) refl

-- A topology that calls built is given back by `from_dict` of what `to_dict` makes of it: the same
-- hosts, switches and links, under the same names and in the same order, and no constructor raises.
-- `Path(str(path))` is to give the P4 path of each of its switches back.
pub from_dict-to_dict :
    (str_path make_path : Text → Text) (t : Topology)
    → Built t
    → PathsAgain str_path make_path t
    → from_dict make_path (to_dict str_path t) ≡ ok t
unfolding from_dict to_dict get text_eq WellFormed
from_dict-to_dict str_path make_path t built paths =
    let r = Built-IsRestorable built in
    let (hosts, switches, apart, links) = Built-WellFormed built in
    rw
      (
        entries_again host_to_dict restore_host [] (Topology.hosts t) r.hosts
            (empty-Apart (Topology.hosts t)) (hosts_again (Topology.hosts t) hosts),
        entries_again (switch_to_dict str_path) (restore_switch make_path) [] (Topology.switches t)
            r.switches (empty-Apart (Topology.switches t))
            (switches_again str_path make_path (Topology.switches t) paths r.switches_again),
        links_again t (Topology.links t) r.ends_again links,
      )
      refl
