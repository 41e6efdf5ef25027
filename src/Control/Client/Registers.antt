-- ===== src/Control/Client/Registers.antt =====
-- Registers in src/p4net/control/client.py, which go through the `simple_switch_CLI` process.
use p4net.Base.{
  ℕ, Bool, true, false, not, ◌||◌, Option, none, some, List, [], ◌∷◌, ◌++◌, ok, err, ◌>>=◌, ◌>>◌,
  raise_if, require, ℤ, pos, negsuc, ltb, ◌==◌, if◌then◌else◌, length,
}
use p4net.Base.Text.{Text, codes, split}
use p4net.Builtins.IntText.{parse_int, strip, str_int}
use p4net.Builtins.Lines.{splitlines, after_prefix, starts_with, occurs, after_char}
use p4net.Control.Codec.{int, encode_value}
use p4net.Control.Index.{RegisterSpec, new_index, register_by_name, encoding}
use p4net.Control.Client.RpcErrors.{p4runtime_error, encoding_error, index_error}
use p4net.Control.Client.{Client, Called, lift_index, require_connected_with_index}

-- A line without the prompt and the white space around it.
unfoldable pub clean_line : Text → Text
clean_line raw = elim (after_prefix (codes "RuntimeCmd:") (strip raw)) [
  | none ↦ strip raw
  | some rest ↦ strip rest
]

unfoldable pub int_or_error : Text → Called ℤ
int_or_error s = require (parse_int 10 s) p4runtime_error

-- The first line that begins with the needle and has an equals sign.
unfoldable pub single_in : Text → List Text → Called ℤ
unfolding clean_line int_or_error
single_in needle [] = err p4runtime_error
single_in needle (raw ∷ rest) =
    let later = single_in needle rest in
    if starts_with needle (clean_line raw)
    then (elim (after_char b'=' (clean_line raw)) [
      | none ↦ later
      | some value ↦ int_or_error (strip value)
    ])
    else later

unfoldable pub parse_register_read_single : Text → Text → Called ℤ
unfolding single_in
parse_register_read_single output name = single_in (name ++ codes "[") (splitlines output)

abbrev is_blank : Text → Bool
is_blank [] = true
is_blank (c ∷ s) = false

-- `[int(v.strip()) for v in parts if v.strip()]`
unfoldable pub ints_of : List Text → Called (List ℤ)
unfolding int_or_error
ints_of [] = ok []
ints_of (v ∷ vs) = elim (is_blank (strip v)) [
  | true ↦ ints_of vs
  | false ↦ do n ← int_or_error (strip v); ns ← ints_of vs; ok (n ∷ ns)
]

unfoldable pub sized_ints : ℕ → Text → Called (List ℤ)
unfolding ints_of
sized_ints size value = do
  values ← ints_of (split b',' (strip value))
  raise_if (not (length values == size)) p4runtime_error
  ok values

unfoldable pub array_in : Text → ℕ → List Text → Called (List ℤ)
unfolding clean_line sized_ints
array_in needle size [] = err p4runtime_error
array_in needle size (raw ∷ rest) =
    let later = array_in needle size rest in
    elim (after_prefix needle (clean_line raw)) [
      | none ↦ later
      | some value ↦ sized_ints size value
    ]

unfoldable pub parse_register_read_array : Text → Text → ℕ → Called (List ℤ)
unfolding array_in
parse_register_read_array output name size = array_in (name ++ codes "=") size (splitlines output)

-- What becomes of the process: it is not found, it runs out of time, or it ends.
pub data CliOutcome : Type 0 where
  not_found_on_path timed_out : CliOutcome
  completed : ℤ → Text → Text → CliOutcome

abbrev error_line : Text → Bool
error_line s = starts_with (codes "Error:") s || occurs (codes "Invalid") s

unfoldable pub any_error_line : List Text → Bool
any_error_line [] = false
any_error_line (l ∷ ls) = error_line (strip l) || any_error_line ls

unfoldable pub cli_stdout : CliOutcome → Called Text
unfolding any_error_line
cli_stdout not_found_on_path = err p4runtime_error
cli_stdout timed_out = err p4runtime_error
cli_stdout (completed (negsuc n) out errors) = err p4runtime_error
cli_stdout (completed (pos n) out errors) = do
  raise_if (not (n == 0)) p4runtime_error
  raise_if (any_error_line (splitlines (out ++ errors))) p4runtime_error
  ok out

-- `0 <= index < size`
unfoldable pub in_register : ℕ → ℤ → Bool
in_register size (pos n) = ltb n size
in_register size (negsuc n) = false

unfoldable pub write_command : Text → ℤ → ℤ → Text
write_command name index value =
    codes "register_write " ++ (name ++ (b' ' ∷ (str_int index ++ (b' ' ∷ str_int value))))

unfoldable pub read_command : Text → Option ℤ → Text
read_command name none = codes "register_read " ++ name
read_command name (some index) = codes "register_read " ++ (name ++ (b' ' ∷ str_int index))

-- The command of `write_register`, behind its checks.
unfoldable pub register_write : Client → Text → ℤ → ℤ → Called Text
unfolding in_register write_command
register_write c name index value = do
  info ← require_connected_with_index c
  spec ← lift_index (register_by_name (new_index info) name)
  raise_if (not (in_register spec.size index)) encoding_error
  elim (encode_value (int value) spec.bitwidth) [
    | err e ↦ err (index_error (encoding e))
    | ok _ ↦ ok (write_command name index value)
  ]

abbrev index_outside : ℕ → Option ℤ → Bool
index_outside size none = false
index_outside size (some index) = not (in_register size index)

unfoldable pub register_read : Client → Text → Option ℤ → Called (RegisterSpec × Text)
unfolding read_command
register_read c name index = do
  info ← require_connected_with_index c
  spec ← lift_index (register_by_name (new_index info) name)
  raise_if (index_outside spec.size index) encoding_error
  ok (spec, read_command name index)

-- The process, given the host, the port and its input.
module _ {S : Type 0} (cli : S → Text → ℕ → Text → S × CliOutcome) where
  abbrev answered : S × CliOutcome → S × Called Text
  answered (s, o) = (s, cli_stdout o)

  unfoldable pub run_thrift_cli : Client → Text → S → S × Called Text
  unfolding cli_stdout
  run_thrift_cli c command s = elim c.thrift_address [
    | none ↦ (s, err p4runtime_error)
    | some (host, port) ↦ answered (cli s host port (command ++ codes "\n"))
  ]

  abbrev then_done : S × Called Text → S × Called (Unit {0})
  then_done (s, r) = (s, r >>= λ _. ok tt)

  unfoldable pub write_register : Client → Text → ℤ → ℤ → S → S × Called (Unit {0})
  unfolding run_thrift_cli
  write_register c name index value s = elim (register_write c name index value) [
    | err e ↦ (s, err e)
    | ok command ↦ then_done (run_thrift_cli c command s)
  ]

  abbrev then_parse : {A : Type 0} → (Text → Called A) → S × Called Text → S × Called A
  then_parse f (s, r) = (s, r >>= f)

  -- `read_register(name, index)`
  unfoldable pub read_register_cell : Client → Text → ℤ → S → S × Called ℤ
  unfolding run_thrift_cli
  read_register_cell c name index s = elim (register_read c name (some index)) [
    | err e ↦ (s, err e)
    | ok (spec, command) ↦
        then_parse (λ out. parse_register_read_single out name) (run_thrift_cli c command s)
  ]

  -- `read_register(name)`
  unfoldable pub read_register : Client → Text → S → S × Called (List ℤ)
  unfolding run_thrift_cli
  read_register c name s = elim (register_read c name none) [
    | err e ↦ (s, err e)
    | ok (spec, command) ↦
        then_parse (λ out. parse_register_read_array out name spec.size)
          (run_thrift_cli c command s)
  ]
