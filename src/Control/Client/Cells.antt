-- ===== src/Control/Client/Cells.antt =====
-- Which cells of a register `P4RuntimeClient` reads and writes, and how many it returns.
use p4net.Base.{
  ℕ, ◌≡◌, ◌<◌, ◌↔◌, refl, sym, ap, subst, ◌∙◌, true, not, none, some, List, [], ◌∷◌, ◌++◌, arith, ℤ,
  pos, negsuc, ◌==◌, ==_iff, length, Bool-cases, Option-cases, Result-cases, inl, inr, ok, err,
  raise_if, >>=-eq-ok, >>-eq-ok, ok_inj,
}
use p4net.Base.Text.{Text, codes, split, join}
use p4net.Builtins.IntText.{strip, str_int}
use p4net.Builtins.Lines.{splitlines, after_prefix}
use p4net.Control.Codec.{int, encode_value}
use p4net.Control.Index.{P4Info, RegisterSpec, new_index, register_by_name}
use p4net.Control.Client.{
  Client, lift_index, is_connected, require_connected, require_connected_with_index,
}
use p4net.Control.Client.Registers.{
  clean_line, sized_ints, ints_of, array_in, parse_register_read_array, CliOutcome, in_register,
  write_command, register_write, register_read, run_thrift_cli, read_register,
}

sized_ints-length :
    (size : ℕ) (value : Text) (values : List ℤ)
    → sized_ints size value ≡ ok values
    → length values ≡ size
unfolding sized_ints
sized_ints-length size value values e =
    let (read, got, rest) = >>=-eq-ok (ints_of (split b',' (strip value))) _ e in
    let (good, same) = >>-eq-ok (raise_if (not (length read == size)) _) _ rest in
    ground (arith, good, ok_inj same, ap length (ok_inj same), ==_iff (length read) size)

array_in-length :
    (needle : Text) (size : ℕ) (lines : List Text) (values : List ℤ)
    → array_in needle size lines ≡ ok values
    → length values ≡ size
unfolding array_in
array_in-length needle size [] values e = cc
array_in-length needle size (raw ∷ rest) values e =
    elim (Option-cases (after_prefix needle (clean_line raw))) [
      | inl absent ↦ array_in-length needle size rest values (rw (array_in, absent) at e)
      | inr (value, found) ↦ sized_ints-length size value values (rw (array_in, found) at e)
    ]

-- A register of the pipeline, over a connection.
pub record IsOpen (c : Client) (name : Text) (spec : RegisterSpec) : Type 0 where
  pub info : P4Info
  pub connected : is_connected c ≡ true
  pub pipeline : c.index ≡ some info
  pub found : register_by_name (new_index info) name ≡ ok spec

-- An index of a cell, and a value that the width of the register holds.
pub record IsCellWrite (c : Client) (name : Text) (index value : ℤ) : Type 0 where
  pub spec : RegisterSpec
  pub opened : IsOpen c name spec
  pub cell : ℕ
  pub index_is : index ≡ pos cell
  pub below : cell < spec.size
  pub encoded : List ℕ
  pub fits : encode_value (int value) spec.bitwidth ≡ ok encoded

with_index_iff :
    (c : Client) (info : P4Info)
    → (require_connected_with_index c ≡ ok info) ↔ ((is_connected c ≡ true) × (c.index ≡ some info))
unfolding require_connected_with_index require_connected
with_index_iff c info = elim (Bool-cases (is_connected c)) [
  | inl on ↦ elim (Option-cases c.index) [
    | inl absent ↦ rw (on, absent) (ground arith)
    | inr (i, present) ↦ rw (on, present) (ground arith)
  ]
  | inr off ↦ rw off (ground arith)
]

lift_index_ok : {A : Type 0} (r : _) (a : A) → lift_index r ≡ ok a → r ≡ ok a
lift_index_ok (ok b) a e = ground (arith, e)
lift_index_ok (err x) a e = cc

in_register_iff :
    (size : ℕ) (index : ℤ) → in_register size index ≡ true → (n : ℕ) × (index ≡ pos n) × (n < size)
unfolding in_register
in_register_iff size (pos n) e = (n, refl, ground (arith, e))
in_register_iff size (negsuc n) e = cc

opened_by :
    (c : Client) (name : Text) (info : P4Info) (spec : RegisterSpec)
    → require_connected_with_index c ≡ ok info
    → lift_index (register_by_name (new_index info) name) ≡ ok spec
    → IsOpen c name spec
opened_by c name info spec ready found = record {
  info = info;
  connected = ((with_index_iff c info).0 ready).0;
  pipeline = ((with_index_iff c info).0 ready).1;
  found = lift_index_ok _ spec found;
}

register_write-IsCellWrite :
    (c : Client) (name : Text) (index value : ℤ) (command : Text)
    → register_write c name index value ≡ ok command
    → IsCellWrite c name index value × (command ≡ write_command name index value)
unfolding register_write
register_write-IsCellWrite c name index value command e =
    let (info, ready, rest) = >>=-eq-ok (require_connected_with_index c) _ e in
    let (spec, found, checks) =
      >>=-eq-ok (lift_index (register_by_name (new_index info) name)) _ rest in
    let (inside, last) = >>-eq-ok (raise_if (not (in_register spec.size index)) _) _ checks in
    let (n, is_n, below) = in_register_iff spec.size index (ground (arith, inside)) in
    elim (Result-cases (encode_value (int value) spec.bitwidth)) [
      | inl (bs, fits) ↦ (
        record {
          spec = spec;
          opened = opened_by c name info spec ready found;
          cell = n;
          index_is = is_n;
          below = below;
          encoded = bs;
          fits = fits;
        },
        sym (ok_inj (rw fits at last)),
      )
      | inr (x, bad) ↦ absurd (ground (arith, rw bad at last))
    ]

opened_again :
    (c : Client) (name : Text) (spec : RegisterSpec) (h : IsOpen c name spec)
    → (require_connected_with_index c ≡ ok h.info)
      × (lift_index (register_by_name (new_index h.info) name) ≡ ok spec)
opened_again c name spec h =
    ((with_index_iff c h.info).1 (h.connected, h.pipeline), rw h.found refl)

IsCellWrite-register_write :
    (c : Client) (name : Text) (index value : ℤ)
    → IsCellWrite c name index value
    → register_write c name index value ≡ ok (write_command name index value)
unfolding register_write in_register
IsCellWrite-register_write c name index value h =
    let (ready, found) = opened_again c name h.spec h.opened in
    let inside : in_register h.spec.size index ≡ true = rw h.index_is (ground (arith, h.below)) in
    rw (register_write, ready, found, inside, h.fits) refl

-- `write_register` makes a command exactly for a register of the connected client's pipeline, an
-- index from 0 to below its size, and a value that its width holds. The command is the text
-- `register_write`, the register's name, the index and the value in decimal, with one space between
-- each and the next.
pub register_write-iff-IsCellWrite :
    (c : Client) (name : Text) (index value : ℤ) (command : Text)
    → (register_write c name index value ≡ ok command) ↔ (
        IsCellWrite c name index value
        × (command
            ≡ join
                (codes " ")
                (codes "register_write" ∷ name ∷ str_int index ∷ str_int value ∷ [])))
unfolding write_command join
register_write-iff-IsCellWrite c name index value command = (
  register_write-IsCellWrite c name index value command,
  λ h. IsCellWrite-register_write c name index value h.0 ∙ ap ok (sym h.1),
)

read_spec :
    (c : Client) (name : Text) (spec : RegisterSpec) (command : Text)
    → register_read c name none ≡ ok (spec, command)
    → IsOpen c name spec
unfolding register_read
read_spec c name spec command e =
    let (info, ready, rest) = >>=-eq-ok (require_connected_with_index c) _ e in
    let (found_spec, found, last) =
      >>=-eq-ok (lift_index (register_by_name (new_index info) name)) _ rest in
    subst (IsOpen c name) (ap (λ p. p.0) (ok_inj last))
      (opened_by c name info found_spec ready found)

-- `read_register` without an index returns a list only for a register of the connected client's
-- pipeline, and then one value for every cell of the register.
pub length-read_register :
    {T : Type 0} (cli : T → Text → ℕ → Text → T × CliOutcome) (c : Client) (name : Text) (t : T)
    (values : List ℤ)
    → (read_register cli c name t).1 ≡ ok values
    → (spec : RegisterSpec) × IsOpen c name spec × (length values ≡ spec.size)
unfolding read_register parse_register_read_array
length-read_register cli c name t values e = elim (Result-cases (register_read c name none)) [
  | inl (made, built) ↦
      let (out, answered, parsed) =
        >>=-eq-ok (run_thrift_cli cli c made.1 t).1 _ (rw (read_register, built) at e) in
      (
        made.0,
        read_spec c name made.0 made.1 built,
        array_in-length (name ++ codes "=") made.0.size (splitlines out) values parsed,
      )
  | inr (x, refused) ↦ absurd (ground (arith, rw (read_register, refused) at e))
]
